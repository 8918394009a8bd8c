-- ===== src/Text/Plain.antt =====
-- Texts that stay within one line.
use cybersec_proj.Base.{
  ℕ, zero, suc, ◌+◌, ◌/◌, ◌%◌, ◌≢◌, Bytes, [], ◌∷◌, ◌++◌, arith, ◌==◌, Bool-cases, inl, inr,
}
use cybersec_proj.Text.{digits, decimal}

-- No zero byte and no line feed.
abbrev pub IsPlainText : Bytes → Type 0
IsPlainText [] = Unit {0}
IsPlainText (c ∷ cs) = (c ≢ 0) × (c ≢ b'\n') × IsPlainText cs

pub plain_append : (xs ys : Bytes) → IsPlainText xs → IsPlainText ys → IsPlainText (xs ++ ys)
plain_append [] ys h k = k
plain_append (x ∷ xs) ys h k = (h.0, h.1, plain_append xs ys h.2 k)

digits-IsPlainText : (fuel n : ℕ) → IsPlainText (digits fuel n)
unfolding digits
digits-IsPlainText zero n = tt
digits-IsPlainText (suc fuel) n = elim (Bool-cases (n / 10 == 0)) [
  | inl small ↦ rw small (omega arith, omega arith, tt)
  | inr large ↦ rw large (
      plain_append (digits fuel (n / 10)) ((b'0' + n % 10) ∷ []) (digits-IsPlainText fuel (n / 10))
        (omega arith, omega arith, tt))
]

pub decimal-IsPlainText : (n : ℕ) → IsPlainText (decimal n)
unfolding decimal
decimal-IsPlainText n = digits-IsPlainText (suc n) n
