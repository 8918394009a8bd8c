-- ===== src/Key/Laws.antt =====
-- Reads from a string's buffer.
use cybersec_proj.Base.{
  ℕ, ◌+◌, ◌++◌, true, leb, le→leb, length-append, append_assoc, drop_front, take_front, ◌≡◌, Bytes,
  [], ◌∷◌, some, none, ◌<◌, arith, length, take-append,
}
use cybersec_proj.Key.{c_read}

-- A key of the length that the call reads is read whole, and nothing after it.
pub c_read_all : (key : Bytes) (n : ℕ) → length key ≡ n → c_read key 0 n ≡ some key
unfolding c_read
c_read_all key n h = ground (arith, take-append key (0 ∷ []))

-- A read that stays inside the text.
pub c_read_at :
    (front text rest : Bytes) (off n : ℕ)
    → length front ≡ off
    → length text ≡ n
    → c_read (front ++ (text ++ rest)) off n ≡ some text
unfolding c_read
c_read_at front text rest off n h k =
    let inside : leb (off + n) (length (front ++ (text ++ rest)) + 1) ≡ true =
      le→leb _ _ (omega (arith, length-append front (text ++ rest), length-append text rest)) in
    rw (
      inside,
      append_assoc front (text ++ rest) (0 ∷ []),
      drop_front off front _ h,
      append_assoc text rest (0 ∷ []),
      take_front n text _ k,
    )

-- A read beyond the final zero byte.
pub c_read_outside :
    (text : Bytes) (off n : ℕ) → length text + 1 < off + n → c_read text off n ≡ none
unfolding c_read
c_read_outside text off n h = ground arith
