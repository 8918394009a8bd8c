-- ===== src/Nonce.antt =====
-- src/common/nonce.h and nonce.cpp: a number used once, as the four bytes that it has in memory.
use cybersec_proj.Base.{ℕ, ◌==◌, Bytes, length, M, ◌>>=◌, ◌>>◌, return, check}
use cybersec_proj.Exception.{ex_nonce}
use cybersec_proj.Random.{Random, cyb_rand}

pub record Nonce : Type 0 where
  pub nonce : Bytes

-- `sizeof(this->nonce)`, of a uint32_t.
abbrev pub nonce_size : ℕ
nonce_size = 4

-- `Nonce()`.
unfoldable pub generate : {G : Type 0} → Random G → M G Nonce
generate random = do bytes ← cyb_rand random nonce_size; return (record { nonce = bytes })

-- `Nonce(string)`.
unfoldable pub of_text : {S : Type 0} → Bytes → M S Nonce
of_text buffer = do check (length buffer == nonce_size) ex_nonce; return (record { nonce = buffer })

unfoldable pub str : Nonce → Bytes
str n = n.nonce
