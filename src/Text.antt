-- ===== src/Text.antt =====
-- The parts of the C++ text library that the program's commands go through: numbers in decimal,
-- lines, C strings, and extraction from an `istringstream` with `>>`.
pub mod Decimal
pub mod Extract
pub mod Plain
use cybersec_proj.Base.{
  ℕ, zero, suc, ◌+◌, ◌-◌, ◌*◌, ◌/◌, ◌%◌, ◌^◌, Bool, true, false, not, ◌&&◌, ◌||◌, Option, some,
  none, List, [], ◌∷◌, ◌++◌, Bytes, codes, ltb, leb, ◌==◌, if◌then◌else◌, M, ◌>>=◌, ◌>>◌, return,
}
use cybersec_proj.Base.Int.{ℤ, pos, negsuc}

abbrev pub is_space : ℕ → Bool
is_space c = (c == b' ') || (leb 9 c && leb c 13)

abbrev pub is_digit : ℕ → Bool
is_digit c = leb b'0' c && leb c b'9'

-- `os << n`: the digits of `n`, most significant first. `fuel` bounds their number.
pub digits : ℕ → ℕ → Bytes
digits zero n = []
digits (suc fuel) n =
    let more = digits fuel (n / 10) in (if n / 10 == 0 then [] else more) ++ ((b'0' + n % 10) ∷ [])

unfoldable pub decimal : ℕ → Bytes
unfolding digits
decimal n = digits (suc n) n

-- `string(buffer)`: up to the first zero byte.
unfoldable pub c_string : Bytes → Bytes
c_string [] = []
c_string (c ∷ cs) = if c == 0 then [] else c ∷ c_string cs

-- An `istringstream`: the text not read yet, and whether eofbit or failbit is set.
pub record Istream : Type 0 where
  pub unread : Bytes
  pub good : Bool

-- `is.clear(); is.str(text)`.
abbrev pub from_text : Bytes → Istream
from_text text = record { unread = text; good = true }

pub skip_spaces : Bytes → Bytes
skip_spaces [] = []
skip_spaces (c ∷ cs) = if is_space c then skip_spaces cs else c ∷ cs

-- A word and the text after it.
pub word : Bytes → Bytes × Bytes
word [] = ([], [])
word (c ∷ cs) = let (w, rest) = word cs in if is_space c then ([], c ∷ cs) else (c ∷ w, rest)

pub not_empty : Bytes → Bool
not_empty [] = false
not_empty (c ∷ cs) = true

after_word : Bytes × Bytes → Option Bytes × Istream
after_word (w, rest) = (some w, record { unread = rest; good = not_empty rest })

extract_from : Bytes → Option Bytes × Istream
extract_from [] = (none, record { unread = []; good = false })
extract_from (c ∷ cs) = after_word (word (c ∷ cs))

-- `is >> text`: `none` leaves the variable as it was. Reaching the end sets eofbit.
unfoldable pub extract : Istream → Option Bytes × Istream
unfolding extract_from after_word
extract is =
    if is.good
    then extract_from (skip_spaces is.unread)
    else (none, record { unread = is.unread; good = false })

-- The value of a row of digits, and the text after it; `none` if there is no digit.
pub read_digits : Bytes → ℕ → ℕ × Bytes
read_digits [] acc = (acc, [])
read_digits (c ∷ cs) acc =
    let more = read_digits cs (acc * 10 + (c - b'0')) in if is_digit c then more else (acc, c ∷ cs)

abbrev pub int64_max : ℕ
int64_max = 2 ^ 63 - 1

-- The value is clipped to the range of int64_t, with failbit set, and 0 with failbit if no digit
-- comes.
positive : ℕ × Bytes → Option ℤ × Istream
positive (n, rest) =
    if leb n int64_max
    then (some (pos n), record { unread = rest; good = not_empty rest })
    else (some (pos int64_max), record { unread = rest; good = false })

negative : ℕ × Bytes → Option ℤ × Istream
negative (zero, rest) = (some (pos 0), record { unread = rest; good = not_empty rest })
negative (suc n, rest) =
    if leb n int64_max
    then (some (negsuc n), record { unread = rest; good = not_empty rest })
    else (some (negsuc int64_max), record { unread = rest; good = false })

no_number : Bytes → Option ℤ × Istream
no_number rest = (some (pos 0), record { unread = rest; good = false })

starts_digit : Bytes → Bool
starts_digit [] = false
starts_digit (c ∷ cs) = is_digit c

number_from : Bytes → Option ℤ × Istream
number_from [] = (none, record { unread = []; good = false })
number_from (c ∷ cs) =
    if c == b'-'
    then (if starts_digit cs then negative (read_digits cs 0) else no_number cs)
    else if c == b'+'
    then (if starts_digit cs then positive (read_digits cs 0) else no_number cs)
    else if is_digit c
    then positive (read_digits (c ∷ cs) 0)
    else no_number (c ∷ cs)

-- `is >> number` on an int64_t. `none` leaves the variable as it was, which is where nothing but
-- white space is left, or the stream is not good.
unfoldable pub extract_int64 : Istream → Option ℤ × Istream
unfolding number_from positive negative no_number starts_digit
extract_int64 is =
    if is.good
    then number_from (skip_spaces is.unread)
    else (none, record { unread = is.unread; good = false })
