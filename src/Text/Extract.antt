-- ===== src/Text/Extract.antt =====
-- Extraction from a stream whose text is known.
use cybersec_proj.Base.{
  ℕ, ◌+◌, ◌≤◌, ◌≡◌, ◌∙◌, refl, sym, ap, Bytes, [], ◌∷◌, ◌++◌, arith, true, false, none, some,
  le→leb, ◌==◌,
}
use cybersec_proj.Base.Int.{pos}
use cybersec_proj.Text.{
  is_space, is_digit, decimal, skip_spaces, word, extract, read_digits, extract_int64, int64_max,
  not_empty,
}
use cybersec_proj.Text.Decimal.{read_digits-decimal, decimal_head}

-- A text without white space.
abbrev pub IsWord : Bytes → Type 0
IsWord [] = Unit {0}
IsWord (c ∷ cs) = (is_space c ≡ false) × IsWord cs

word_lem :
    (w : Bytes) (c : ℕ) (rest : Bytes)
    → IsWord w
    → is_space c ≡ true
    → word (w ++ (c ∷ rest)) ≡ (w, c ∷ rest)
unfolding word
word_lem [] c rest h k = rw k
word_lem (x ∷ w) c rest h k = rw (h.0, word_lem w c rest h.1 k)

-- A word that white space ends is extracted, and the stream stays good.
pub extract_word :
    (x : ℕ) (w : Bytes) (c : ℕ) (rest : Bytes)
    → IsWord (x ∷ w)
    → is_space c ≡ true
    → extract (record { unread = x ∷ (w ++ (c ∷ rest)); good = true })
      ≡ (some (x ∷ w), record { unread = c ∷ rest; good = true })
unfolding extract skip_spaces not_empty
extract_word x w c rest h k = rw (h.0, word_lem (x ∷ w) c rest h k)

word_whole : (w : Bytes) → IsWord w → word w ≡ (w, [])
unfolding word
word_whole [] h = refl
word_whole (x ∷ w) h = rw (h.0, word_whole w h.1) refl

-- A word at the end of the text is extracted, and the stream has reached its end.
pub extract_last :
    (x : ℕ) (w : Bytes)
    → IsWord (x ∷ w)
    → extract (record { unread = x ∷ w; good = true })
      ≡ (some (x ∷ w), record { unread = []; good = false })
unfolding extract skip_spaces not_empty
extract_last x w h = rw (h.0, word_whole (x ∷ w) h) refl

-- Nothing is left.
pub extract_at_end :
    extract (record { unread = []; good = true }) ≡ (none, record { unread = []; good = false })
unfolding extract skip_spaces not_empty
extract_at_end = refl

-- So it is after a row of white space.
pub extract_skip :
    (s : ℕ) (text : Bytes)
    → is_space s ≡ true
    → extract (record { unread = s ∷ text; good = true })
      ≡ extract (record { unread = text; good = true })
unfolding extract skip_spaces
extract_skip s text h = rw h

pub extract_int64_skip :
    (s : ℕ) (text : Bytes)
    → is_space s ≡ true
    → extract_int64 (record { unread = s ∷ text; good = true })
      ≡ extract_int64 (record { unread = text; good = true })
unfolding extract_int64 skip_spaces
extract_int64_skip s text h = rw h

read_digits_stop :
    (c acc : ℕ) (rest : Bytes) → is_digit c ≡ false → read_digits (c ∷ rest) acc ≡ (acc, c ∷ rest)
unfolding read_digits
read_digits_stop c acc rest h = rw h

-- A number in decimal is extracted, up to the first character that is no digit.
pub extract_int64-decimal :
    (n c : ℕ) (rest : Bytes)
    → n ≤ int64_max
    → is_digit c ≡ false
    → extract_int64 (record { unread = decimal n ++ (c ∷ rest); good = true })
      ≡ (some (pos n), record { unread = c ∷ rest; good = true })
unfolding extract_int64 skip_spaces not_empty
extract_int64-decimal n c rest h k =
    let (d, tail, e, small) = decimal_head n (c ∷ rest) in
    let digit : is_digit (b'0' + d) ≡ true = ground arith in
    let solid : is_space (b'0' + d) ≡ false = ground arith in
    let minus : (b'0' + d == b'-') ≡ false = ground arith in
    let plus : (b'0' + d == b'+') ≡ false = ground arith in
    let value : read_digits ((b'0' + d) ∷ tail) 0 ≡ (n, c ∷ rest) =
      ap (λ (t : Bytes). read_digits t 0) (sym e)
      ∙ read_digits-decimal n (c ∷ rest)
      ∙ read_digits_stop c n rest k in
    rw (e, solid, minus, plus, digit, value, le→leb _ _ h)
