-- ===== src/Word.antt =====
-- The uint32_t values of the program and their four bytes in memory. The host is little-endian, as
-- the machines the program is built for are; `htonl` and `ntohl` of <arpa/inet.h> swap the bytes.
use cybersec_proj.Base.{ℕ, ◌+◌, ◌*◌, ◌/◌, ◌%◌, ◌^◌, ◌<◌, ◌≡◌, Bytes, [], ◌∷◌, arith}
use mathlib.Core.List.{reverse}

abbrev pub u32_mod : ℕ
u32_mod = 2 ^ 32

-- The bytes of a uint32_t, by increasing address.
pub store32 : ℕ → Bytes
store32 w = w % 256 ∷ w / 256 % 256 ∷ w / 65536 % 256 ∷ w / 16777216 % 256 ∷ []

-- The uint32_t that four bytes hold. Anything but four bytes holds none; 0 stands there.
pub load32 : Bytes → ℕ
load32 (a ∷ b ∷ c ∷ d ∷ []) = a + 256 * b + 65536 * c + 16777216 * d
load32 _ = 0

pub htonl : ℕ → ℕ
htonl w = load32 (reverse (store32 w))

pub ntohl : ℕ → ℕ
ntohl w = load32 (reverse (store32 w))

-- The big-endian bytes of a word, most significant first: the order of the network.
abbrev pub network32 : ℕ → Bytes
network32 w = w / 16777216 % 256 ∷ w / 65536 % 256 ∷ w / 256 % 256 ∷ w % 256 ∷ []

pub store32-htonl : (w : ℕ) → store32 (htonl w) ≡ network32 w
unfolding store32 htonl load32
store32-htonl w = ground arith

pub load32-store32 : (w : ℕ) → w < u32_mod → load32 (store32 w) ≡ w
unfolding store32 load32
load32-store32 w h = omega arith

pub ntohl-htonl : (w : ℕ) → w < u32_mod → ntohl (htonl w) ≡ w
unfolding store32 htonl ntohl load32
ntohl-htonl w h = omega arith

pub ntohl-load32-network32 : (w : ℕ) → w < u32_mod → ntohl (load32 (network32 w)) ≡ w
unfolding store32 ntohl load32
ntohl-load32-network32 w h = omega arith
