-- ===== src/Tests.antt =====
-- The theorems applied to concrete data: a socket in memory, a toy cipher and a small disk.
pub mod Data
pub mod Disk
pub mod Ends
pub mod Peers
mod Channel
mod Handshakes
mod Sessions
mod Conversations
mod Exchanges
mod Programs
mod Formats
mod Session
mod Upload
mod Response
