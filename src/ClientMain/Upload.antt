-- ===== src/ClientMain/Upload.antt =====
-- What `send_file` sends.
use cybersec_proj.Base.{
  ℕ, zero, suc, ◌+◌, ◌-◌, ◌/◌, ◌≤◌, ◌<◌, ◌≡◌, ◌∙◌, refl, ap, true, Bytes, List, [], ◌∷◌, ◌++◌,
  arith, leb, le→leb, ltb, ltb→lt, ltb_false→le, Bool-cases, inl, inr, take, drop, length,
  length-take, length-drop, take-append-drop, if◌then◌else◌, ok, throws, fault, Outcome, bind, some,
}
use cybersec_proj.Protocol.{buffer_size}
use cybersec_proj.Openssl.{Openssl}
use cybersec_proj.Connection.{Socket}
use cybersec_proj.Crypto
use cybersec_proj.Crypto.{Link}
use cybersec_proj.Crypto.Channel.{IsMessage, All, concat}
use cybersec_proj.Crypto.Session.{send_each}
use cybersec_proj.ClientMain

module _ {S C : Type 0} (os : Socket S) (lib : Openssl C) where
  -- A fragment, and the row of fragments of a file.
  abbrev fragment_of : ℕ → ℕ
  fragment_of remaining = if ltb buffer_size remaining then buffer_size else remaining

  rounds_step : (n : ℕ) → (suc n + 4095) / 4096 ≡ 1 + (suc n - fragment_of (suc n) + 4095) / 4096
  rounds_step n = elim (Bool-cases (ltb buffer_size (suc n))) [
    | inl more ↦ let b : buffer_size < suc n = ltb→lt _ _ more in rw more (omega arith)
    | inr last ↦ let b : suc n ≤ buffer_size = ltb_false→le _ _ last in rw last (omega arith)
  ]

  -- Two runs that begin with the same message and go on alike.
  after_first :
      (p : Bytes) (f g : Link S C → Outcome (Link S C) (Unit {0})) (l : Link S C)
      → ((m : Link S C) → f m ≡ g m)
      → bind (Crypto.send os lib p l) (λ _. f) ≡ bind (Crypto.send os lib p l) (λ _. g)
  after_first p f g l h =
      elim (Crypto.send os lib p l) as (λ o. bind o (λ _. f) ≡ bind o (λ _. g)) [
        | ok a m ↦ h m
        | throws e m ↦ refl
        | fault ↦ refl
      ]

  send_file_loop_lem :
      (fuel : ℕ) (file : Bytes) (size : ℕ)
      → length file ≡ size
      → size ≤ fuel
      → (ps : List Bytes) × ((l : Link S C)
          → ClientMain.send_file_loop os lib fuel file size l ≡ send_each os lib ps l)
        × All IsMessage ps
        × (concat ps ≡ file)
        × (length ps ≡ (size + 4095) / 4096)
  unfolding ClientMain.send_file_loop ClientMain.send_fragment send_each
  send_file_loop_lem fuel [] zero e f = ([], λ l. refl, tt, refl, refl)
  send_file_loop_lem fuel (c ∷ cs) zero e f = absurd (omega arith)
  send_file_loop_lem zero file (suc n) e f = absurd (omega arith)
  send_file_loop_lem (suc fuel) file (suc n) e f =
      let k = fragment_of (suc n) in
      let lo : 0 < k = ground arith in
      let hi : k ≤ suc n = ground arith in
      let hi' : k ≤ buffer_size = ground arith in
      let fits : leb k (length file) ≡ true = le→leb _ _ (omega arith) in
      let (ps, r, m, s, q) =
        send_file_loop_lem fuel (drop k file) (suc n - k) (omega (arith, length-drop k file))
          (omega arith) in
      (
        take k file ∷ ps,
        λ l. rw fits (after_first (take k file) _ (send_each os lib ps) l r),
        ((omega (arith, length-take k file), omega (arith, length-take k file)), m),
        ap (◌++◌ (take k file)) s ∙ take-append-drop k file,
        omega (arith, q, rounds_step n),
      )

  -- `send_file` of a file that has the size announced is one `Crypto::send` for each fragment: they
  -- are messages that fit a buffer, one for each 4096 bytes begun, and together they are the file.
  pub send_file_lem :
      (file : Bytes)
      → (ps : List Bytes) × ((l : Link S C)
          → ClientMain.send_file os lib (some file) (length file) l ≡ send_each os lib ps l)
        × All IsMessage ps
        × (concat ps ≡ file)
        × (length ps ≡ (length file + 4095) / 4096)
  unfolding ClientMain.send_file
  send_file_lem file = send_file_loop_lem (length file) file (length file) refl (omega arith)
