-- ===== src/ClientMain/Printing.antt =====
-- The inner loop of `recv_list`: names on lines of their own, in a buffer of zeros, are printed as they are.
use cybersec_proj.Base.{
  ℕ, zero, suc, ◌+◌, ◌≤◌, ◌<◌, ◌≡◌, ◌∙◌, refl, ap, ◌-◌, true, false, Option, Bytes, List, [], ◌∷◌,
  ◌++◌, some, none, arith, length, length-append, drop, replicate, ◌==◌,
}
use cybersec_proj.Protocol.{buffer_size}
use cybersec_proj.Text.{Istream, extract, c_string}
use cybersec_proj.Text.Extract.{IsWord, extract_word, extract_skip, extract_at_end}
use cybersec_proj.Crypto.Channel.{All}
use cybersec_proj.ClientMain.Program.{print_round, print_words, has_zero}

-- Names on lines of their own.
abbrev pub listing : List Bytes → Bytes
listing [] = []
listing (name ∷ names) = name ++ (b'\n' ∷ listing names)

-- A name that is printed as it is: without white space or a zero byte, and not empty.
abbrev pub IsShown : Bytes → Type 0
IsShown [] = ⊥
IsShown (c ∷ cs) = IsWord (c ∷ cs) × (has_zero (c ∷ cs) ≡ false)

print_word :
    (rounds : ℕ) (is is' : Istream) (w : Bytes)
    → extract is ≡ (some w, is')
    → (print_words (suc rounds) is).0 ≡ w ++ (b'\n' ∷ (print_words rounds is').0)
unfolding print_words
print_word rounds is is' w e =
    ap (λ (o : Option Bytes × Istream). (print_round (print_words rounds) o).0) e

print_nothing :
    (rounds : ℕ) (is is' : Istream)
    → extract is ≡ (none, is')
    → (print_words (suc rounds) is).0 ≡ []
unfolding print_words
print_nothing rounds is is' e =
    ap (λ (o : Option Bytes × Istream). (print_round (print_words rounds) o).0) e

print_skip :
    (rounds : ℕ) (is is' : Istream)
    → extract is ≡ extract is'
    → (print_words (suc rounds) is).0 ≡ (print_words (suc rounds) is').0
unfolding print_words
print_skip rounds is is' e =
    ap (λ (o : Option Bytes × Istream). (print_round (print_words rounds) o).0) e

-- The printing of names, from the start of one.
pub print_listing :
    (names : List Bytes) (rounds : ℕ)
    → All IsShown names
    → length names ≤ rounds
    → (print_words (suc rounds) (record { unread = listing names; good = true })).0 ≡ listing names
print_listing [] rounds h k = print_nothing rounds _ _ extract_at_end
print_listing ([] ∷ names) rounds h k = absurd (h.0)
print_listing ((c ∷ cs) ∷ names) zero h k = absurd (omega arith)
print_listing ((c ∷ cs) ∷ names) (suc rounds) h k =
    print_word (suc rounds) _ _ (c ∷ cs) (extract_word c cs b'\n' (listing names) h.0.0 refl)
    ∙ ap (λ (bs : Bytes). (c ∷ cs) ++ (b'\n' ∷ bs))
        (print_skip rounds _ _ (extract_skip b'\n' (listing names) refl)
          ∙ print_listing names rounds h.1 (omega arith))

-- A listing in a buffer that it does not fill is a C string.
pub zero_after : (n : ℕ) (text : Bytes) → has_zero (text ++ replicate (suc n) 0) ≡ true
unfolding has_zero
zero_after n [] = refl
zero_after n (c ∷ cs) = rw (zero_after n cs) (ground arith)

pub string_of :
    (n : ℕ) (text : Bytes) → has_zero text ≡ false → c_string (text ++ replicate (suc n) 0) ≡ text
unfolding has_zero c_string
string_of n [] h = refl
string_of n (c ∷ cs) h =
    let some_byte : (c == 0) ≡ false = ground arith in
    let later : has_zero cs ≡ false = ground arith in rw (some_byte, string_of n cs later) refl

zero_append :
    (xs ys : Bytes) → has_zero xs ≡ false → has_zero ys ≡ false → has_zero (xs ++ ys) ≡ false
unfolding has_zero
zero_append [] ys h k = k
zero_append (c ∷ cs) ys h k =
    let some_byte : (c == 0) ≡ false = ground arith in
    let later : has_zero cs ≡ false = ground arith in rw (some_byte, zero_append cs ys later k) refl

pub listing_zero : (names : List Bytes) → All IsShown names → has_zero (listing names) ≡ false
unfolding has_zero
listing_zero [] h = refl
listing_zero ([] ∷ names) h = absurd (h.0)
listing_zero ((c ∷ cs) ∷ names) h =
    zero_append (c ∷ cs) (b'\n' ∷ listing names) h.0.1 (rw (listing_zero names h.1) refl)

drop-replicate : (size n j : ℕ) → size ≡ n + j → drop {A = ℕ} n (replicate size 0) ≡ replicate j 0
drop-replicate size zero j e = ap (λ (k : ℕ). replicate {A = ℕ} k 0) (omega arith)
drop-replicate zero (suc n) j e = absurd (omega arith)
drop-replicate (suc size) (suc n) j e = drop-replicate size n j (omega arith)

-- What is behind a listing in the buffer.
pub rest_zero :
    (m : Bytes)
    → length m < buffer_size
    → (j : ℕ) × (drop {A = ℕ} (length m) (replicate buffer_size 0) ≡ replicate (suc j) 0)
rest_zero m h =
    let whole : buffer_size ≡ length m + suc (4095 - length m) = omega arith in
    (4095 - length m, drop-replicate buffer_size (length m) (suc (4095 - length m)) whole)

pub names_few : (names : List Bytes) → length names ≤ length (listing names)
names_few [] = omega arith
names_few (name ∷ names) =
    omega (arith, length-append name (b'\n' ∷ listing names), names_few names)
