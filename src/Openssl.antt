-- ===== src/Openssl.antt =====
-- The parts of OpenSSL that the secure channel calls, as a parameter over an unknown cipher state,
-- and the documented behaviour that the channel relies on.
pub mod Toy
use cybersec_proj.Base.{ℕ, ◌≡◌, ◌↔◌, Bytes, some, length, Option}
use cybersec_proj.Protocol.{hmac_len}

-- `hmac key message` is HMAC_CTX_new, HMAC_Init_ex with SHA-256, HMAC_Update and HMAC_Final;
-- `memcmp` is CRYPTO_memcmp; the others are the EVP calls with AES-128 in CFB8 mode. `none` is a
-- failure of the library.
pub record Openssl (C : Type 0) : Type 0 where
  pub hmac : Bytes → Bytes → Option Bytes
  pub memcmp : Bytes → Bytes → ℕ
  pub encrypt_init : Bytes → Bytes → C
  pub decrypt_init : Bytes → Bytes → C
  pub encrypt_update : C → Bytes → Option (Bytes × C)
  pub decrypt_update : C → Bytes → Option (Bytes × C)

-- `InSync e d`: the decrypting context `d` stands where the encrypting context `e` does.
pub record IsSound {C : Type 0} (lib : Openssl C) (InSync : C → C → Type 0) : Type 0 where
  pub hmac_tag : (key m : Bytes) → (t : Bytes) × (lib.hmac key m ≡ some t) × (length t ≡ hmac_len)
  pub memcmp_iff : (a b : Bytes) → (lib.memcmp a b ≡ 0) ↔ (a ≡ b)
  pub init_sync : (key iv : Bytes) → InSync (lib.encrypt_init key iv) (lib.decrypt_init key iv)
  pub update_sync :
      (e d : C) (p : Bytes)
      → InSync e d
      → (x : Bytes) × (e' : C) × (d' : C) × (lib.encrypt_update e p ≡ some (x, e'))
        × (lib.decrypt_update d x ≡ some (p, d'))
        × (length x ≡ length p)
        × InSync e' d'

-- The tag that the library computes.
abbrev pub tag :
    {C : Type 0} {lib : Openssl C} {InSync : C → C → Type 0}
    → IsSound lib InSync
    → Bytes
    → Bytes
    → Bytes
tag sound key m = (sound.hmac_tag key m).0
