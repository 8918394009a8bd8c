-- ===== src/RsaSeal.antt =====
-- src/common/rsaseal.h and rsaseal.cpp: an envelope with an encrypted key, a payload and an IV, and
-- its form on the wire: three texts, each after its length in network order.
pub mod RoundTrip
use cybersec_proj.Base.{
  ℕ, ◌+◌, ◌%◌, Bytes, [], ◌++◌, leb, ltb, ◌&&◌, length, M, ◌>>=◌, ◌>>◌, return, defined, or_fault,
}
use cybersec_proj.Protocol.{aes128_key_len}
use cybersec_proj.Word.{u32_mod, store32, load32, htonl, ntohl}
use cybersec_proj.Key.{c_read}

pub record RsaSeal : Type 0 where
  pub ek : Bytes
  pub iv : Bytes
  pub payload : Bytes

module _ {S : Type 0} where
  -- A uint32_t of the text in host order, at an offset.
  unfoldable pub word_at : Bytes → ℕ → M S ℕ
  word_at buffer off = do raw ← or_fault (c_read buffer off 4); return (ntohl (load32 raw))

  -- `fromString` takes each length as it stands in the text, and reads on from there. Offsets are
  -- size_t values below 2 ^ 35, so they do not wrap.
  unfoldable pub from_string : Bytes → M S RsaSeal
  from_string buffer = do
    el ← word_at buffer 0
    ek ← or_fault (c_read buffer 4 el)
    pl ← word_at buffer (4 + el)
    payload ← or_fault (c_read buffer (4 + el + 4) pl)
    ivl ← word_at buffer (4 + el + 4 + pl)
    iv ← or_fault (c_read buffer (4 + el + 4 + pl + 4) ivl)
    return (record { ek = ek; iv = iv; payload = payload })

  -- `str` asserts that two of the texts are not empty, and writes the length of the IV as 16.
  unfoldable pub str : RsaSeal → M S Bytes
  str seal = do
    defined (ltb 0 (length seal.ek) && ltb 0 (length seal.payload))
    let els = store32 (htonl (length seal.ek % u32_mod))
    let pls = store32 (htonl (length seal.payload % u32_mod))
    let ivls = store32 (htonl aes128_key_len)
    return (els ++ (seal.ek ++ (pls ++ (seal.payload ++ (ivls ++ seal.iv)))))
