-- ===== src/Text/Decimal.antt =====
-- Numbers written in decimal are read back.
use cybersec_proj.Base.{
  ℕ, zero, suc, ◌+◌, ◌-◌, ◌*◌, ◌/◌, ◌%◌, ◌^◌, ◌<◌, ◌≤◌, length, length-append, ◌≡◌, ◌∙◌, ap, Bytes,
  [], ◌∷◌, ◌++◌, append_assoc, arith, true, Bool-cases, inl, inr, ◌==◌,
}
use native.Mathlib.Nat.{pow-succ'}
use cybersec_proj.Text.{is_digit, digits, decimal, read_digits}

read_digits-digit :
    (d : ℕ) (cs : Bytes) (acc : ℕ)
    → d < 10
    → read_digits ((b'0' + d) ∷ cs) acc ≡ read_digits cs (acc * 10 + d)
unfolding read_digits
read_digits-digit d cs acc h =
    let digit : is_digit (b'0' + d) ≡ true = ground arith in
    let back : b'0' + d - b'0' ≡ d = omega arith in rw (digit, back)

read_digits-digits :
    (fuel n : ℕ) (cs : Bytes) → n < fuel → read_digits (digits fuel n ++ cs) 0 ≡ read_digits cs n
unfolding digits
read_digits-digits zero n cs h = elim h [ ]
read_digits-digits (suc fuel) n cs h = elim (Bool-cases (n / 10 == 0)) [
  | inl small ↦
      rw small (read_digits-digit (n % 10) cs 0 (omega arith) ∙ ap (read_digits cs) (ground arith))
  | inr more ↦
      rw (more, append_assoc (digits fuel (n / 10)) ((b'0' + n % 10) ∷ []) cs)
        (read_digits-digits fuel (n / 10) ((b'0' + n % 10) ∷ cs) (ground arith)
          ∙ read_digits-digit (n % 10) cs (n / 10) (omega arith)
          ∙ ap (read_digits cs) (let e : n / 10 * 10 + n % 10 ≡ n = omega arith in e))
]

pub read_digits-decimal : (n : ℕ) (cs : Bytes) → read_digits (decimal n ++ cs) 0 ≡ read_digits cs n
unfolding decimal
read_digits-decimal n cs = read_digits-digits (suc n) n cs (omega arith)

-- A decimal begins with a digit.
digits_head :
    (fuel n : ℕ) (cs : Bytes)
    → n < fuel
    → (d : ℕ) × (rest : Bytes) × (digits fuel n ++ cs ≡ (b'0' + d) ∷ rest) × (d < 10)
unfolding digits
digits_head zero n cs h = elim h [ ]
digits_head (suc fuel) n cs h = elim (Bool-cases (n / 10 == 0)) [
  | inl small ↦ (n % 10, cs, rw small, omega arith)
  | inr more ↦
      let (d, rest, e, k) = digits_head fuel (n / 10) ((b'0' + n % 10) ∷ cs) (ground arith) in
      (d, rest, rw more (append_assoc (digits fuel (n / 10)) _ cs ∙ e), k)
]

pub decimal_head :
    (n : ℕ) (cs : Bytes)
    → (d : ℕ) × (rest : Bytes) × (decimal n ++ cs ≡ (b'0' + d) ∷ rest) × (d < 10)
unfolding decimal
decimal_head n cs = digits_head (suc n) n cs (omega arith)

length-digits : (k fuel n : ℕ) → n < 10 ^ suc k → length (digits fuel n) ≤ suc k
unfolding digits
length-digits k zero n h = omega arith
length-digits zero (suc fuel) n h =
    let small : (n / 10 == 0) ≡ true = ground arith in rw small (omega arith)
length-digits (suc k) (suc fuel) n h = elim (Bool-cases (n / 10 == 0)) [
  | inl small ↦ rw small (omega arith)
  | inr more ↦ rw more (
      omega (
        arith,
        length-append (digits fuel (n / 10)) ((b'0' + n % 10) ∷ []),
        length-digits k fuel (n / 10) (omega (arith, pow-succ' 10 (suc k))),
      ))
]

-- A number below 10 ^ 20 has at most 20 digits.
pub length-decimal : (n : ℕ) → n < 10 ^ 20 → length (decimal n) ≤ 20
unfolding decimal
length-decimal n h = length-digits 19 (suc n) n h
