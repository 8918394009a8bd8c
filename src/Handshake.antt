-- ===== src/Handshake.antt =====
-- The key exchange of src/server/client.cpp and src/client/main.cpp: what both ends share. The parts of
-- the two `handshake` functions are in Handshake/Server and Handshake/Client, one function for each of
-- the comments M1, M2 and M3 of the source.
pub mod Server
pub mod Client
pub mod Authentic
pub mod AuthenticClient
pub mod Setup
pub mod Buffers
pub mod Script
pub mod ClientRun
pub mod ServerRun
pub mod Agreement
use cybersec_proj.Base.{ℕ, Bytes, M, ◌>>=◌, return, zoom}
use cybersec_proj.Connection
use cybersec_proj.Connection.{Socket}
use cybersec_proj.Random.{Random}
use cybersec_proj.Certificate.{Codec}
use cybersec_proj.RsaCrypto.{Rsa}

-- What one end works on: its connection, and the state of OpenSSL's random source.
pub record Party (S G : Type 0) : Type 0 where
  pub sock : S
  pub rng : G

-- The vector that `handshake` returns, by its three places.
pub record Keys : Type 0 where
  pub session_key : Bytes
  pub auth_key : Bytes
  pub iv : Bytes

-- The libraries that a handshake calls.
pub record Libs (S G K P : Type 0) : Type 0 where
  pub os : Socket S
  pub random : Random G
  pub codec : Codec K P
  pub rsa : Rsa G P

module _ {S G : Type 0} where
  abbrev pub party : S → G → Party S G
  party sock rng = record { sock = sock; rng = rng }

  abbrev pub on_sock : {A : Type 0} → M S A → M (Party S G) A
  on_sock = zoom (λ p. p.sock) (λ s p. record p { sock = s })

  abbrev pub on_rng : {A : Type 0} → M G A → M (Party S G) A
  on_rng = zoom (λ p. p.rng) (λ g p. record p { rng = g })

  -- `connection->recv(buffer)`.
  unfoldable pub recv_buffer : Socket S → M (Party S G) Bytes
  recv_buffer os = do (text, count) ← on_sock (Connection.recv_string os); return text

  -- `connection->send(buffer)`.
  unfoldable pub send_buffer : Socket S → Bytes → M (Party S G) (Unit {0})
  send_buffer os text = do _ ← on_sock (Connection.send_string os text); return tt
