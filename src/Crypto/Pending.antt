-- ===== src/Crypto/Pending.antt =====
-- The static variables of `Crypto::recv` seen as the plaintext that is still to be handed out.
use cybersec_proj.Base.{
  ℕ, ◌+◌, ◌-◌, ◌≤◌, ◌≡◌, ◌∙◌, sym, ap, Bytes, arith, take, drop, length, length-take, length-drop,
  drop-drop, ok, leb, ltb, if◌then◌else◌, Bool-cases, inl, inr, take_all, drop_all, take-take,
  drop-take, ltb→lt, ltb_false→le, true,
}
use cybersec_proj.Protocol.{buffer_size}
use cybersec_proj.Crypto
use cybersec_proj.Crypto.{Statics, Link}

-- The bytes left of the last payload.
abbrev pub pending : Statics → Bytes
pending st = take st.remaining (drop st.index st.payload)

-- What is left lies inside the buffer.
pub record IsValid (st : Statics) : Type 0 where
  pub within : st.index + st.remaining ≤ buffer_size
  pub filled : length st.payload ≡ buffer_size

pub length-pending : (st : Statics) → IsValid st → length (pending st) ≡ st.remaining
length-pending st v =
    omega
      (arith, length-take st.remaining (drop st.index st.payload), length-drop st.index st.payload)

-- The count that `recv` copies.
abbrev pub count : Statics → ℕ → ℕ
count st n = if ltb st.remaining n then st.remaining else n

take-count :
    (st : Statics) (n : ℕ)
    → IsValid st
    → take (count st n) (drop st.index st.payload) ≡ take n (pending st)
take-count st n v = elim (Bool-cases (ltb st.remaining n)) [
  | inl b ↦ rw b (sym (take_all n (pending st) (omega (arith, length-pending st v, ltb→lt _ _ b))))
  | inr b ↦ rw b (sym (take-take n st.remaining _ (ltb_false→le _ _ b)))
]

drop-count :
    (st : Statics) (n : ℕ) → IsValid st → drop (count st n) (pending st) ≡ drop n (pending st)
drop-count st n v = elim (Bool-cases (ltb st.remaining n)) [
  | inl b ↦ rw b (
      drop_all st.remaining (pending st) (omega (arith, length-pending st v))
      ∙ sym (drop_all n (pending st) (omega (arith, length-pending st v, ltb→lt _ _ b))))
  | inr b ↦ rw b
]

module _ {S C : Type 0} where
  -- `recv` hands out as much of what is left as fits, and keeps the rest.
  pub copy_out_lem :
      (l : Link S C) (n : ℕ)
      → IsValid l.statics
      → (st' : Statics) × (Crypto.copy_out n l
          ≡ ok (take n (pending l.statics)) (record l { statics = st' }))
        × (pending st' ≡ drop n (pending l.statics))
        × IsValid st'
  unfolding Crypto.copy_out
  copy_out_lem l n v =
      let st = l.statics in
      let r : ℕ = count st n in
      let small : r ≤ st.remaining = ground arith in
      let e : leb (st.index + r) buffer_size ≡ true = ground arith in
      (
        record st { index = st.index + r; remaining = st.remaining - r },
        rw (e, take-count st n v),
        ap (take (st.remaining - r)) (sym (drop-drop st.index r st.payload))
            ∙ sym (drop-take r st.remaining (drop st.index st.payload))
            ∙ drop-count st n v,
        record { within = omega arith; filled = v.filled },
      )
