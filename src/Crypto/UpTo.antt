-- ===== src/Crypto/UpTo.antt =====
-- How far a reader of the channel has come on its way to one message.
use cybersec_proj.Base.{
  ℕ, ◌+◌, ◌≤◌, ◌<◌, ◌≡◌, ◌∙◌, refl, sym, ap, subst, Bytes, List, [], ◌∷◌, ◌++◌, arith, length,
  length-append, inl, inr,
}
use cybersec_proj.Openssl.{Openssl, IsSound}
use cybersec_proj.Connection.{Socket}
use cybersec_proj.Connection.Stream.{Stream}
use cybersec_proj.Crypto.{Link}
use cybersec_proj.Crypto.Pending.{pending}
use cybersec_proj.Crypto.Channel.{Mark, IsMessage, All, concat, Ready, plaintext, Delivered}

-- The message `m` is the last on the way, or the reader has begun to read it.
pub data UpTo {S C : Type 0} (m : Bytes) (l : Link S C) (ps : List Bytes) : Type 0 where
  before : (xs : List Bytes) → ps ≡ xs ++ (m ∷ []) → UpTo m l ps
  inside : ps ≡ [] → length (pending l.statics) < length m → UpTo m l ps

next_message :
    {S C : Type 0} (m p : Bytes) (l : Link S C) (left xs : List Bytes)
    → p ∷ left ≡ xs ++ (m ∷ [])
    → length (pending l.statics) < length p
    → UpTo m l left
next_message m p l left [] e h =
    let same : p ≡ m = cc in
    let gone : left ≡ [] = cc in inside gone (omega (arith, h, ap (length {A = ℕ}) same))
next_message m p l left (x ∷ xs) e h = before xs cc

no_length : (xs : Bytes) → length xs ≡ 0 → xs ≡ []
no_length [] e = refl
no_length (x ∷ xs) e = absurd (omega arith)

concat_last_ge : (m : Bytes) (xs : List Bytes) → length m ≤ length (concat (xs ++ (m ∷ [])))
concat_last_ge m [] = omega (arith, length-append m [])
concat_last_ge m (x ∷ xs) =
    omega (arith, length-append x (concat (xs ++ (m ∷ []))), concat_last_ge m xs)

-- More than the last message is on the way.
length-concat_last :
    (m : Bytes) (xs : List Bytes)
    → All IsMessage (xs ++ (m ∷ []))
    → length (concat (xs ++ (m ∷ []))) ≡ length m
    → xs ≡ []
length-concat_last m [] h e = refl
length-concat_last m (x ∷ xs) h e =
    absurd (omega (arith, h.0.0, e, length-append x (concat (xs ++ (m ∷ []))), concat_last_ge m xs))

module _ {S C : Type 0} (os : Socket S) (net : Stream os) (lib : Openssl C)
    {InSync : C → C → Type 0} (sound : IsSound lib InSync) where
  pub UpTo-recv :
      {mark : Mark C} (m : Bytes) (l : Link S C) (ps : List Bytes) (n : ℕ)
      (d : Delivered os net lib sound mark l ps n)
      → UpTo m l ps
      → UpTo m d.after d.left
  UpTo-recv m l ps n d (before xs e) = elim (d.moved) [
    | inl (same, less) ↦ before xs (same ∙ e)
    | inr (p, split, less) ↦ next_message m p d.after d.left xs (sym split ∙ e) less
  ]
  UpTo-recv m l ps n d (inside e h) = elim (d.moved) [
    | inl (same, less) ↦ inside (same ∙ e) (omega (arith, less, h))
    | inr (p, split, less) ↦ absurd (omega (arith, ap (length {A = Bytes}) (sym split ∙ e)))
  ]

  -- Once exactly that message is left, it is the next message, and nothing of it is read.
  pub UpTo-end :
      {mark : Mark C} (m : Bytes) (l : Link S C) (ps : List Bytes)
      → Ready os net lib sound mark l ps
      → UpTo m l ps
      → plaintext os net lib sound l ps ≡ m
      → (ps ≡ m ∷ []) × (pending l.statics ≡ [])
  UpTo-end m l ps h (before xs e) w =
      let size : length (pending l.statics) + length (concat (xs ++ (m ∷ []))) ≡ length m =
        sym (length-append (pending l.statics) (concat (xs ++ (m ∷ []))))
        ∙ ap (λ (ms : List Bytes). length (pending l.statics ++ concat ms)) (sym e)
        ∙ ap (length {A = ℕ}) w in
      let none_before : xs ≡ [] =
        length-concat_last m xs (subst (All IsMessage) e (h.messages))
          (omega (arith, size, concat_last_ge m xs)) in
      (
        e ∙ ap (λ (ys : List Bytes). ys ++ (m ∷ [])) none_before,
        no_length (pending l.statics) (omega (arith, size, concat_last_ge m xs)),
      )
  UpTo-end m l ps h (inside e less) w =
      let size : length (pending l.statics) + 0 ≡ length m =
        sym (length-append (pending l.statics) [])
        ∙ ap (λ (ms : List Bytes). length (pending l.statics ++ concat ms)) (sym e)
        ∙ ap (length {A = ℕ}) w in
      absurd (omega (arith, size, less))
