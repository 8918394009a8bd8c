-- ===== src/Handshake/Setup.antt =====
-- What an honest handshake relies on: the documented behaviour of the RSA operations, and two ends
-- whose certificates the other end accepts.
use cybersec_proj.Base.{ℕ, ◌≤◌, ◌<◌, ◌≡◌, true, Bytes, some, length}
use cybersec_proj.Base.Int.{pos}
use cybersec_proj.Protocol.{aes128_key_len, buffer_size}
use cybersec_proj.CertManager.{CertManager}
use cybersec_proj.CertManager.Laws.{Named}
use cybersec_proj.RsaCrypto.{Rsa}
use cybersec_proj.Handshake.{Libs}

-- Keys of 8192 bits at most have signatures and encrypted keys of 1024 bytes at most.
abbrev pub rsa_max : ℕ
rsa_max = 1024

-- `Pair pub priv`: the two halves of a key. A signature of one half is valid for the other, and an
-- envelope for one half is opened with the other. CFB8 keeps the length of the text.
pub record IsSoundRsa {G P : Type 0} (rsa : Rsa G P) (Pair : P → P → Type 0) (Seeded : G → Type 0)
    : Type 0 where
  pub md_ctx : rsa.new_md_ctx ≡ true
  pub cipher_ctx : rsa.new_cipher_ctx ≡ true
  pub signs :
      (public private : P) (m : Bytes)
      → Pair public private
      → (sig : Bytes) × (rsa.sign private m ≡ some sig)
        × (rsa.verify public m sig ≡ some (pos 1))
        × (0 < length sig)
        × (length sig ≤ rsa_max)
  pub seals :
      (public private : P) (g : G) (m : Bytes)
      → Pair public private
      → Seeded g
      → (ek : Bytes) × (payload : Bytes) × (iv : Bytes) × (secret : Bytes) × (g' : G) × (rsa.seal g
            public m
          ≡ (some (ek, payload, iv), g'))
        × (rsa.unwrap private ek ≡ some secret)
        × (rsa.decrypt secret iv payload ≡ some m)
        × (0 < length ek)
        × (length ek ≤ rsa_max)
        × (length payload ≡ length m)
        × (length iv ≡ aes128_key_len)
        × Seeded g'

-- The end that `own` belongs to, with a certificate that the manager `judge` of the other end accepts.
pub record Identity {S G K P : Type 0} (libs : Libs S G K P) (Pair : P → P → Type 0)
    (own judge : CertManager K P) : Type 0 where
  pub x509 : K
  pub public : P
  pub private : P
  pub text : Bytes
  pub holds_cert : own.cert ≡ some x509
  pub holds_key : own.privkey ≡ some private
  pub matches : Pair public private
  pub certifies : libs.codec.get_pubkey x509 ≡ some public
  pub written : libs.codec.i2d x509 ≡ some text
  pub parsed : libs.codec.d2i text ≡ some x509
  pub some_text : 0 < length text
  pub fits : length text ≤ buffer_size
  pub new_ctx : judge.store.new_ctx ≡ true
  pub init_ctx : judge.store.init_ctx x509 ≡ true
  pub valid : judge.store.verify_cert x509 ≡ true
  pub named : Named (judge.store.oneline x509) judge.auth_peers_list
