-- ===== src/CertManager/Loading.antt =====
-- How the constructor of `CertManager` ends.
use cybersec_proj.Base.{
  ◌≡◌, refl, ◌⊎◌, inl, inr, Bytes, List, Option, some, none, Outcome, ok, throws, M, bind, or_throw,
}
use cybersec_proj.Exception.{ex_certificate}
use cybersec_proj.Certificate.{Pem, read_pem, from_user_name}
use cybersec_proj.CertManager
use cybersec_proj.CertManager.{Trust}

-- A call that returns, or throws ExCertificate in the state that it started in.
abbrev pub OkOrCert : {S A : Type 0} → S → Outcome S A → Type 0
OkOrCert s o = ((a : _) × (o ≡ ok a s)) ⊎ (o ≡ throws ex_certificate s)

OkOrCert-bind :
    {S A B : Type 0} (s : S) (o : Outcome S A) (f : A → M S B)
    → OkOrCert s o
    → ((a : A) → OkOrCert s (f a s))
    → OkOrCert s (bind o f)
OkOrCert-bind s o f (inl (a, e)) k = rw e (k a)
OkOrCert-bind s o f (inr e) k = inr (rw e refl)

or_throw-OkOrCert : {S A : Type 0} (s : S) (o : Option A) → OkOrCert s (or_throw o ex_certificate s)
or_throw-OkOrCert s none = inr refl
or_throw-OkOrCert s (some a) = inl (a, refl)

read_pem-OkOrCert :
    {S A : Type 0} (s : S) (pem : Pem A) (path : Bytes) → OkOrCert s (read_pem pem path s)
unfolding read_pem
read_pem-OkOrCert s pem path =
    OkOrCert-bind s (or_throw (pem path) ex_certificate s) _ (or_throw-OkOrCert s (pem path))
      (λ file. or_throw-OkOrCert s file)

pub init-OkOrCert :
    {S K P R T : Type 0} (trust : Trust K R T) (certs : Pem K) (crls : Pem R) (keys : Pem P)
    (username : Bytes) (list : List Bytes) (s : S)
    → OkOrCert s (CertManager.init trust certs crls keys username list s)
unfolding CertManager.init from_user_name
init-OkOrCert trust certs crls keys username list s =
    OkOrCert-bind s _ _ (read_pem-OkOrCert s certs _) (λ ca.
      OkOrCert-bind s _ _ (read_pem-OkOrCert s crls _) (λ crl.
        OkOrCert-bind s _ _ (or_throw-OkOrCert s (trust.new_store)) (λ empty.
          OkOrCert-bind s _ _ (or_throw-OkOrCert s (trust.add_cert empty ca)) (λ with_ca.
            OkOrCert-bind s _ _ (or_throw-OkOrCert s (trust.add_crl with_ca crl)) (λ with_crl.
              OkOrCert-bind s _ _ (read_pem-OkOrCert s certs _) (λ own.
                OkOrCert-bind s _ _
                  (OkOrCert-bind s _ _ (read_pem-OkOrCert s keys _) (λ key. inl (_, refl)))
                  (λ key. inl (_, refl))))))))
