-- ===== src/RsaCrypto/Laws.antt =====
-- What a return of the RSA operations and of the certificate operations tells.
use cybersec_proj.Base.Int.{ℤ, pos, negsuc}
use cybersec_proj.Base.{
  ◌≡◌, refl, true, Bytes, none, some, arith, ok, Option-cases, inl, inr, ℕ, suc, Option, ◌⊎◌, zero,
}
use cybersec_proj.Certificate.{Certificate, Codec, RsaKey, get_x509, get_pkey, from_certificate}
use cybersec_proj.RsaSeal.{RsaSeal}
use cybersec_proj.RsaCrypto
use cybersec_proj.RsaCrypto.{Rsa, truth}

-- What EVP_VerifyFinal documents of a positive answer: the text bears a signature of the owner of the
-- key. `SignedBy key text` says that this owner signed the text.
pub record IsGenuine {G P : Type 0} (rsa : Rsa G P) (SignedBy : P → Bytes → Type 0) : Type 0 where
  pub genuine :
      (key : P) (text signature : Bytes) (n : ℕ)
      → rsa.verify key text signature ≡ some (pos (suc n))
      → SignedBy key text

-- The owner of the key signed the text, or EVP_VerifyFinal failed with a negative answer.
abbrev pub Endorsed :
    {G P : Type 0} (rsa : Rsa G P) (SignedBy : P → Bytes → Type 0) (key : P)
    (text signature : Bytes)
    → Type 0
Endorsed rsa SignedBy key text signature =
    SignedBy key text ⊎ ((n : ℕ) × (rsa.verify key text signature ≡ some (negsuc n)))

truth_cases :
    (o : Option ℤ)
    → truth o ≡ true
    → ((n : ℕ) × (o ≡ some (pos (suc n)))) ⊎ ((n : ℕ) × (o ≡ some (negsuc n)))
truth_cases none h = ground arith
truth_cases (some (pos zero)) h = ground arith
truth_cases (some (pos (suc n))) h = inl (n, refl)
truth_cases (some (negsuc n)) h = inr (n, refl)

pub truth-Endorsed :
    {G P : Type 0} {rsa : Rsa G P} {SignedBy : P → Bytes → Type 0} (g : IsGenuine rsa SignedBy)
    (key : P) (text signature : Bytes)
    → truth (rsa.verify key text signature) ≡ true
    → Endorsed rsa SignedBy key text signature
truth-Endorsed {rsa = rsa} g key text signature h =
    elim (truth_cases (rsa.verify key text signature) h) [
      | inl (n, e) ↦ inl (g.genuine key text signature n e)
      | inr failed ↦ inr failed
    ]

module _ {S G P : Type 0} (rsa : Rsa G P) where
  -- `verify` returns only for a signature that the library does not refuse.
  pub verify_accepted :
      (buffer signature : Bytes) (key : RsaKey P) {s s' : S}
      → RsaCrypto.verify rsa buffer signature key s ≡ ok tt s'
      → (pk : P) × (key ≡ some pk) × (truth (rsa.verify pk buffer signature) ≡ true) × (s' ≡ s)
  unfolding RsaCrypto.verify get_pkey
  verify_accepted buffer signature none h = ground arith
  verify_accepted buffer signature (some pk) h = (pk, refl, ground arith, ground arith)

  -- A return of `decrypt` is the payload opened with the secret that the private key recovers.
  pub decrypt_opened :
      (key : RsaKey P) (seal : RsaSeal) {text : Bytes} {s s' : S}
      → RsaCrypto.decrypt rsa key seal s ≡ ok text s'
      → (pk : P) × (secret : Bytes) × (key ≡ some pk)
        × (rsa.unwrap pk seal.ek ≡ some secret)
        × (rsa.decrypt secret seal.iv seal.payload ≡ some text)
        × (s' ≡ s)
  unfolding RsaCrypto.decrypt get_pkey
  decrypt_opened none seal h = ground arith
  decrypt_opened (some pk) seal h = elim (Option-cases (rsa.unwrap pk seal.ek)) [
    | inl e ↦ ground arith
    | inr (secret, e) ↦ (pk, secret, refl, e, ground arith, ground arith)
  ]

pub from_certificate_known :
    {S K P : Type 0} (codec : Codec K P) (cert : Certificate K) {key : RsaKey P} {s s' : S}
    → from_certificate codec cert s ≡ ok key s'
    → (x509 : K) × (pk : P) × (cert ≡ some x509)
      × (codec.get_pubkey x509 ≡ some pk)
      × (key ≡ some pk)
      × (s' ≡ s)
unfolding from_certificate get_x509
from_certificate_known codec none h = ground arith
from_certificate_known codec (some x509) h = elim (Option-cases (codec.get_pubkey x509)) [
  | inl e ↦ ground arith
  | inr (pk, e) ↦ (x509, pk, refl, e, ground arith, ground arith)
]
