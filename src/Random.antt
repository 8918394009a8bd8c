-- ===== src/Random.antt =====
-- src/common/cybrand.cpp: bytes from OpenSSL's random source, which is a parameter over an unknown
-- state.
use cybersec_proj.Base.{
  ℕ, Bool, true, Bytes, Option, some, ◌≡◌, length, M, ok, ◌>>=◌, ◌>>◌, return, gets, modify, check,
  or_throw, if◌then◌else◌,
}
use cybersec_proj.Exception.{ex_random}

-- `status` is RAND_status, `poll` tells whether RAND_poll answers 1, and `bytes` gives what RAND_bytes
-- writes, `none` if it does not answer 1.
pub record Random (G : Type 0) : Type 0 where
  pub status : G → Bool
  pub poll : G → Bool × G
  pub bytes : G → ℕ → Option Bytes × G

-- A source that is seeded and stays so, as RAND_bytes documents for a seeded generator.
pub record IsSeeded {G : Type 0} (random : Random G) (Seeded : G → Type 0) : Type 0 where
  pub ready : (g : G) → Seeded g → random.status g ≡ true
  pub fresh :
      (g : G) (n : ℕ)
      → Seeded g
      → (bs : Bytes) × (g' : G) × (random.bytes g n ≡ (some bs, g')) × (length bs ≡ n) × Seeded g'

module _ {G : Type 0} (random : Random G) where
  -- `if (! RAND_status()) if (RAND_poll() != 1) throw`.
  unfoldable pub seed : M G (Unit {0})
  seed = do
    seeded ← gets random.status
    if seeded
        then return tt
        else (do (done, g) ← gets random.poll; modify λ _. g; check done ex_random)

  -- `cybRand(buffer, len)`: the bytes that it writes.
  unfoldable pub cyb_rand : ℕ → M G Bytes
  cyb_rand len = do
    seed
    (got, g) ← gets λ g. random.bytes g len
    modify λ _. g
    or_throw got ex_random

-- A seeded source gives as many bytes as are asked for.
pub cyb_rand_lem :
    {G : Type 0} (random : Random G) {Seeded : G → Type 0} (works : IsSeeded random Seeded) (g : G)
    (n : ℕ)
    → Seeded g
    → (bs : Bytes) × (g' : G) × (cyb_rand random n g ≡ ok bs g') × (length bs ≡ n) × Seeded g'
unfolding cyb_rand seed
cyb_rand_lem random works g n h =
    let (bs, g', e, l, h') = works.fresh g n h in (bs, g', rw (works.ready g h, e), l, h')
