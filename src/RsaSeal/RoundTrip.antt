-- ===== src/RsaSeal/RoundTrip.antt =====
-- Writing an envelope and reading it back, and texts that are not envelopes.
use cybersec_proj.Base.{
  ℕ, ◌+◌, ◌<◌, ◌≡◌, refl, ◌∙◌, Bytes, [], ◌++◌, append_assoc, some, arith, length, length-append,
  ok, fault, bind, lt→ltb,
}
use native.Mathlib.Nat.{mod-eq_of_lt}
use cybersec_proj.Protocol.{aes128_key_len}
use cybersec_proj.Word.{u32_mod, network32, store32-htonl, ntohl-load32-network32}
use cybersec_proj.Key.{c_read}
use cybersec_proj.Key.Laws.{c_read_at, c_read_outside}
use cybersec_proj.RsaSeal
use cybersec_proj.RsaSeal.{RsaSeal}

-- An envelope of RSACrypto::encrypt: nothing is empty, lengths fit their fields, the IV has 16 bytes.
pub record IsSealed (seal : RsaSeal) : Type 0 where
  pub some_ek : 0 < length seal.ek
  pub ek_fits : length seal.ek < u32_mod
  pub some_payload : 0 < length seal.payload
  pub payload_fits : length seal.payload < u32_mod
  pub iv_size : length seal.iv ≡ aes128_key_len

-- The envelope on the wire.
abbrev pub seal_frame : RsaSeal → Bytes
seal_frame seal =
    network32 (length seal.ek)
    ++ (seal.ek
        ++ (network32 (length seal.payload)
            ++ (seal.payload ++ (network32 aes128_key_len ++ seal.iv))))

text_at :
    (n off : ℕ) (buffer front text rest : Bytes)
    → buffer ≡ front ++ (text ++ rest)
    → length front ≡ off
    → length text ≡ n
    → c_read buffer off n ≡ some text
text_at n off buffer front text rest e h k = rw e (c_read_at front text rest off n h k)

module _ {S : Type 0} where
  pub str_lem :
      (seal : RsaSeal) (s : S) → IsSealed seal → RsaSeal.str seal s ≡ ok (seal_frame seal) s
  unfolding RsaSeal.str
  str_lem seal s v = rw (
    lt→ltb _ _ v.some_ek,
    lt→ltb _ _ v.some_payload,
    mod-eq_of_lt v.ek_fits,
    mod-eq_of_lt v.payload_fits,
    store32-htonl (length seal.ek),
    store32-htonl (length seal.payload),
    store32-htonl aes128_key_len,
  )

  word_at_lem :
      (n off : ℕ) (buffer front rest : Bytes) (s : S)
      → buffer ≡ front ++ (network32 n ++ rest)
      → length front ≡ off
      → n < u32_mod
      → RsaSeal.word_at buffer off s ≡ ok n s
  unfolding RsaSeal.word_at
  word_at_lem n off buffer front rest s e h k =
      rw (e, c_read_at front (network32 n) rest off 4 h refl, ntohl-load32-network32 n k)

  -- Of an envelope whose key and payload are not empty and shorter than 2 ^ 32 bytes and whose IV has 16
  -- bytes, `fromString` reads back what `str` wrote, whatever follows it in the text.
  pub from_string-str :
      (seal : RsaSeal) (rest text : Bytes) (s : S)
      → IsSealed seal
      → RsaSeal.str seal s ≡ ok text s
      → RsaSeal.from_string (text ++ rest) s ≡ ok seal s
  unfolding RsaSeal.from_string
  from_string-str seal rest text s v e =
      let whole : text ≡ seal_frame seal = cc (str_lem seal s v) in
      let buffer = text ++ rest in
      let el = network32 (length seal.ek) in
      let pl = network32 (length seal.payload) in
      let ivl = network32 aes128_key_len in
      let tail = ivl ++ (seal.iv ++ rest) in
      let base : buffer ≡ el ++ (seal.ek ++ (pl ++ (seal.payload ++ tail))) =
        rw whole (simp append_assoc) in
      let f3 = el ++ (seal.ek ++ pl) in
      let f4 = el ++ (seal.ek ++ (pl ++ seal.payload)) in
      let f5 = el ++ (seal.ek ++ (pl ++ (seal.payload ++ ivl))) in
      let n3 = length-append seal.ek pl in
      let n4 = length-append seal.ek (pl ++ seal.payload) in
      let n5 = length-append seal.ek (pl ++ (seal.payload ++ ivl)) in
      let n6 = length-append seal.payload ivl in
      rw (
        word_at_lem (length seal.ek) 0 buffer [] _ s base refl v.ek_fits,
        bind,
        text_at (length seal.ek) 4 buffer el seal.ek _ base refl refl,
        word_at_lem (length seal.payload) (4 + length seal.ek) buffer (el ++ seal.ek) _ s base
            (omega arith) v.payload_fits,
        bind,
        text_at (length seal.payload) (4 + length seal.ek + 4) buffer f3 seal.payload tail
            (base ∙ simp append_assoc) (omega (arith, n3)) refl,
        word_at_lem aes128_key_len (4 + length seal.ek + 4 + length seal.payload) buffer f4
            (seal.iv ++ rest) s (base ∙ simp append_assoc) (omega (arith, n4)) (omega arith),
        bind,
        text_at aes128_key_len (4 + length seal.ek + 4 + length seal.payload + 4) buffer f5 seal.iv
            rest (base ∙ simp append_assoc) (omega (arith, n5, n6)) v.iv_size,
      )

  -- A text whose first length goes beyond its end makes `fromString` read outside the text.
  pub from_string_overrun :
      (n : ℕ) (rest : Bytes) (s : S)
      → n < u32_mod
      → length rest + 1 < n
      → RsaSeal.from_string (network32 n ++ rest) s ≡ fault
  unfolding RsaSeal.from_string
  from_string_overrun n rest s h k = rw (
    word_at_lem n 0 (network32 n ++ rest) [] rest s refl refl h,
    bind,
    c_read_outside (network32 n ++ rest) 4 n (omega arith),
  )
