-- ===== src/CertManager/Laws.antt =====
-- Whom `verifyCert` lets in.
use cybersec_proj.Base.{
  ℕ, suc, ◌≤◌, ◌≡◌, ◌∙◌, refl, sym, ap, ◌↔◌, ◌⊎◌, true, List, [], ◌∷◌, Bytes, codes, ◌++◌, length,
  ok, arith, ==_refl, Bool-cases, inl, inr,
}
use cybersec_proj.CertManager
use cybersec_proj.CertManager.{X509}

-- Some name of the list stands right after a "CN=" of the text.
pub data Named (subject : Bytes) : List Bytes → Type 0 where
  here :
      {name : Bytes} {names : List Bytes} (front back : Bytes)
      → subject ≡ front ++ ((codes "CN=" ++ name) ++ back)
      → Named subject (name ∷ names)
  there : {name : Bytes} {names : List Bytes} → Named subject names → Named subject (name ∷ names)

starts_with_append :
    (pattern back : Bytes) → CertManager.starts_with pattern (pattern ++ back) ≡ true
starts_with_append [] back = refl
starts_with_append (c ∷ cs) back = rw (==_refl c) (starts_with_append cs back)

starts_with-split :
    (pattern text : Bytes)
    → CertManager.starts_with pattern text ≡ true
    → (back : Bytes) × (text ≡ pattern ++ back)
starts_with-split [] text h = (text, refl)
starts_with-split (c ∷ cs) [] h = cc
starts_with-split (c ∷ cs) (d ∷ ds) h =
    let e : c ≡ d = ground arith in
    let (back, k) = starts_with-split cs ds (ground arith) in
    (back, ap (λ (x : ℕ). x ∷ ds) (sym e) ∙ ap (◌∷◌ c) k)

found_append :
    (front pattern back : Bytes) → CertManager.found pattern (front ++ (pattern ++ back)) ≡ true
unfolding CertManager.found
found_append [] [] [] = refl
found_append [] [] (c ∷ cs) = refl
found_append [] (p ∷ ps) back = rw (starts_with_append (p ∷ ps) back) refl
found_append (c ∷ cs) pattern back = ground (arith, found_append cs pattern back)

found-split :
    (pattern text : Bytes)
    → CertManager.found pattern text ≡ true
    → (front back : Bytes) × (text ≡ front ++ (pattern ++ back))
unfolding CertManager.found
found-split pattern [] h = let (back, e) = starts_with-split pattern [] h in ([], back, e)
found-split pattern (c ∷ cs) h = elim (Bool-cases (CertManager.starts_with pattern (c ∷ cs))) [
  | inl s ↦ let (back, e) = starts_with-split pattern (c ∷ cs) s in ([], back, e)
  | inr s ↦
      let (front, back, e) = found-split pattern cs (ground arith) in
      (c ∷ front, back, ap (◌∷◌ c) e)
]

first_match-Named :
    (subject : Bytes) (names : List Bytes)
    → Named subject names
    → suc (CertManager.first_match subject names) ≤ length names
unfolding CertManager.first_match
first_match-Named subject _ (here {name = name} {names = names} front back e) =
    let hit : CertManager.found (codes "CN=" ++ name) subject ≡ true =
      rw e (found_append front (codes "CN=" ++ name) back) in
    rw hit (omega arith)
first_match-Named subject _ (there {name = name} {names = names} n) =
    ground (arith, first_match-Named subject names n)

Named-first_match :
    (subject : Bytes) (names : List Bytes)
    → (CertManager.first_match subject names ≡ length names) ⊎ Named subject names
unfolding CertManager.first_match
Named-first_match subject [] = inl refl
Named-first_match subject (name ∷ names) =
    elim (Bool-cases (CertManager.found (codes "CN=" ++ name) subject)) [
      | inl hit ↦
          let (front, back, e) = found-split (codes "CN=" ++ name) subject hit in
          inr (here front back e)
      | inr miss ↦ elim (Named-first_match subject names) [
        | inl m ↦ inl (rw (miss, m) refl)
        | inr n ↦ inr (there n)
      ]
    ]

name_pass-Named :
    (subject : Bytes) (names : List Bytes)
    → CertManager.name_pass subject names ≡ true
    → Named subject names
unfolding CertManager.name_pass
name_pass-Named subject [] h = cc
name_pass-Named subject (name ∷ names) h = elim (Named-first_match subject (name ∷ names)) [
  | inl m ↦ absurd (ground (arith, m))
  | inr n ↦ n
]

Named-name_pass :
    (subject : Bytes) (names : List Bytes)
    → Named subject names
    → CertManager.name_pass subject names ≡ true
unfolding CertManager.name_pass
Named-name_pass subject [] n = elim n [ ]
Named-name_pass subject (name ∷ names) n =
    ground (arith, first_match-Named subject (name ∷ names) n)

-- `verifyCert` returns exactly for the certificates that OpenSSL finds valid and whose subject has,
-- somewhere, "CN=" and right after it a name of the list. What follows the name is not looked at.
pub verify_cert_iff :
    {K S : Type 0} (x509 : X509 K) (names : List Bytes) (cert : K) (s : S)
    → (CertManager.verify_cert x509 names cert s ≡ ok tt s) ↔ (
        (x509.new_ctx ≡ true)
        × (x509.init_ctx cert ≡ true)
        × (x509.verify_cert cert ≡ true)
        × Named (x509.oneline cert) names)
unfolding CertManager.verify_cert
verify_cert_iff x509 names cert s = (
  (λ h. (
    ground arith,
    ground arith,
    ground arith,
    name_pass-Named (x509.oneline cert) names (ground arith),
  )),
  (λ h. rw (h.0, h.1, h.2, Named-name_pass (x509.oneline cert) names h.3) refl),
)

-- A return of `verifyCert`, from any state to any state.
pub verify_cert_passed :
    {K S : Type 0} (x509 : X509 K) (names : List Bytes) (cert : K) (s : S) {s' : S}
    → CertManager.verify_cert x509 names cert s ≡ ok tt s'
    → (x509.verify_cert cert ≡ true) × Named (x509.oneline cert) names
unfolding CertManager.verify_cert
verify_cert_passed x509 names cert s h =
    (ground arith, name_pass-Named (x509.oneline cert) names (ground arith))
