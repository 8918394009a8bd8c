-- ===== src/Key.antt =====
-- src/common/key.cpp: a key is the string of its bytes, copied whole by every constructor, and `str`
-- gives them back. A C call that is handed `str().c_str()` may also read the final zero byte.
pub mod Laws
use cybersec_proj.Base.{
  ℕ, ◌+◌, Bytes, [], ◌∷◌, ◌++◌, leb, if◌then◌else◌, Option, some, none, take, drop, length, M,
}
use cybersec_proj.Random.{Random, cyb_rand}

-- The `n` bytes at offset `off` of a string's buffer, its final zero byte included, as a C call
-- reads them. `none` is a read outside the buffer.
pub c_read : Bytes → ℕ → ℕ → Option Bytes
c_read text off n =
    if leb (off + n) (length text + 1) then some (take n (drop off (text ++ 0 ∷ []))) else none

-- `Key(len)`: random bytes.
unfoldable pub generate : {G : Type 0} → Random G → ℕ → M G Bytes
generate random len = cyb_rand random len
