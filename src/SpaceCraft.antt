-- ===== src/SpaceCraft.antt =====
-- src/common/spacecraft.h and spacecraft.cpp: the header that authenticates a payload.
pub mod Laws
use cybersec_proj.Base.{
  ℕ, Bytes, [], ◌++◌, ◌==◌, take, drop, M, ◌>>=◌, ◌>>◌, return, check, or_throw, or_fault,
}
use cybersec_proj.Exception.{ex_crypto_computation, ex_bad_hmac, ex_bad_seq_num}
use cybersec_proj.Protocol.{hmac_len}
use cybersec_proj.Word.{store32, load32}
use cybersec_proj.Word
use cybersec_proj.Key.{c_read}
use cybersec_proj.Openssl.{Openssl}

pub record SpaceCraft : Type 0 where
  pub hmac : Bytes
  pub sequence_number : ℕ

-- `SpaceCraft(sequence_number)`. The code writes `hmac` before it reads it.
unfoldable pub init : ℕ → SpaceCraft
init seq = record { hmac = []; sequence_number = seq }

pub htonl : SpaceCraft → SpaceCraft
htonl c = record c { sequence_number = Word.htonl c.sequence_number }

pub ntohl : SpaceCraft → SpaceCraft
ntohl c = record c { sequence_number = Word.ntohl c.sequence_number }

-- `(const char*)&spacecraft`: the object in memory, 36 bytes with no padding.
pub to_bytes : SpaceCraft → Bytes
to_bytes c = c.hmac ++ store32 c.sequence_number

-- The object that 36 received bytes make.
pub from_bytes : Bytes → SpaceCraft
from_bytes bs = record {
  hmac = take hmac_len bs;
  sequence_number = load32 (take 4 (drop hmac_len bs));
}

abbrev pub size_of : ℕ
size_of = 36

module _ {C S : Type 0} (lib : Openssl C) where
  -- HMAC over the sequence number as it stands in memory, and the payload.
  unfoldable pub computehmac : Bytes → Bytes → SpaceCraft → M S SpaceCraft
  computehmac auth_key payload c = do
    key ← or_fault (c_read auth_key 0 hmac_len)
    tag ← or_throw (lib.hmac key (store32 c.sequence_number ++ payload)) ex_crypto_computation
    return (record c { hmac = tag })

  unfoldable pub verify : Bytes → ℕ → Bytes → SpaceCraft → M S SpaceCraft
  verify auth_key expected_seq_num payload c = do
    let received_hmac = c.hmac
    c' ← computehmac auth_key payload c
    check (lib.memcmp c'.hmac received_hmac == 0) ex_bad_hmac
    check (c'.sequence_number == expected_seq_num) ex_bad_seq_num
    return c'
