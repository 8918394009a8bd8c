-- ===== src/RsaCrypto.antt =====
-- src/common/rsacrypto.h and rsacrypto.cpp: signatures and envelopes. The calls of OpenSSL's EVP
-- interface are a parameter; `G` is the state of its random source.
pub mod Laws
use cybersec_proj.Base.{
  ℕ, ◌≤◌, ◌<◌, ◌≡◌, Bool, true, false, Bytes, Option, none, some, ◌==◌, not, leb, length, M, ◌>>=◌,
  ◌>>◌, return, gets, modify, check, defined, or_throw,
}
use cybersec_proj.Base.Int.{ℤ, pos, negsuc}
use cybersec_proj.Exception.{ex_signature, ex_crypto, ex_crypto_computation}
use cybersec_proj.Protocol.{aes128_key_len, buffer_size}
use cybersec_proj.Certificate.{RsaKey, get_pkey}
use cybersec_proj.RsaSeal.{RsaSeal}

-- `new_md_ctx` and `new_cipher_ctx` tell whether EVP_MD_CTX_new and EVP_CIPHER_CTX_new succeed.
-- `sign` is EVP_SignInit, Update and Final. `verify` is EVP_VerifyInit, Update and Final: `none` if one
-- of the first two answers 0, else the answer of the last. `seal` is EVP_SealInit, Update and Final with
-- AES-128 in CFB8 mode, and gives the encrypted key, the payload and the IV; `none` if one of them
-- fails. `unwrap` is the secret key that EVP_OpenInit recovers, `decrypt` is what it does with that key
-- and 16 bytes of IV, with EVP_OpenUpdate and Final.
pub record Rsa (G P : Type 0) : Type 0 where
  pub new_md_ctx : Bool
  pub new_cipher_ctx : Bool
  pub sign : P → Bytes → Option Bytes
  pub verify : P → Bytes → Bytes → Option ℤ
  pub seal : G → P → Bytes → Option (Bytes × Bytes × Bytes) × G
  pub unwrap : P → Bytes → Option Bytes
  pub decrypt : Bytes → Bytes → Bytes → Option Bytes

-- The value of `... && EVP_VerifyFinal(...)` as a `bool`: an `int` that is not zero is true.
abbrev pub truth : Option ℤ → Bool
truth none = false
truth (some (pos n)) = not (n == 0)
truth (some (negsuc n)) = true

module _ {G P : Type 0} (rsa : Rsa G P) where
  unfoldable pub sign : {S : Type 0} → RsaKey P → Bytes → M S Bytes
  sign privkey buffer = do
    check rsa.new_md_ctx ex_signature
    key ← get_pkey privkey
    or_throw (rsa.sign key buffer) ex_signature

  unfoldable pub verify : {S : Type 0} → Bytes → Bytes → RsaKey P → M S (Unit {0})
  verify buffer signature pubkey = do
    check rsa.new_md_ctx ex_signature
    key ← get_pkey pubkey
    check (truth (rsa.verify key buffer signature)) ex_signature

  -- The three calls go on after a failure of one; the exception comes after the last.
  unfoldable pub encrypt : Bytes → RsaKey P → M G RsaSeal
  encrypt src pubkey = do
    check rsa.new_cipher_ctx ex_crypto
    key ← get_pkey pubkey
    (sealed, g) ← gets λ g. rsa.seal g key src
    modify λ _. g
    (ek, payload, iv) ← or_throw sealed ex_crypto_computation
    return (record { ek = ek; iv = iv; payload = payload })

  -- EVP_OpenInit reads 16 bytes of IV, if it recovers a key, whatever their number in the envelope.
  unfoldable pub decrypt : {S : Type 0} → RsaKey P → RsaSeal → M S Bytes
  decrypt privkey seal = do
    check rsa.new_cipher_ctx ex_crypto
    key ← get_pkey privkey
    secret ← or_throw (rsa.unwrap key seal.ek) ex_crypto_computation
    defined (leb aes128_key_len (length seal.iv))
    or_throw (rsa.decrypt secret seal.iv seal.payload) ex_crypto_computation
