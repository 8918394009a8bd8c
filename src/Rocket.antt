-- ===== src/Rocket.antt =====
-- src/common/rocket.h and rocket.cpp: the header that announces the size of a message.
pub mod Laws
use cybersec_proj.Base.{
  ℕ, ◌+◌, Bytes, [], ◌++◌, ltb, ◌==◌, not, take, drop, M, ◌>>=◌, ◌>>◌, return, check, or_throw,
  or_fault,
}
use cybersec_proj.Exception.{ex_crypto_computation, ex_bad_hmac, ex_bad_protocol, ex_bad_seq_num}
use cybersec_proj.Protocol.{buffer_size, hmac_len}
use cybersec_proj.Word.{store32, load32}
use cybersec_proj.Word
use cybersec_proj.Key.{c_read}
use cybersec_proj.Openssl.{Openssl}

pub record Rocket : Type 0 where
  pub hmac : Bytes
  pub payload_size : ℕ
  pub sequence_number : ℕ

-- `Rocket(size, sequence_number)`. The code writes `hmac` before it reads it.
unfoldable pub init : ℕ → ℕ → Rocket
init size seq = record { hmac = []; payload_size = size; sequence_number = seq }

pub htonl : Rocket → Rocket
htonl r = record r {
  payload_size = Word.htonl r.payload_size;
  sequence_number = Word.htonl r.sequence_number;
}

pub ntohl : Rocket → Rocket
ntohl r = record r {
  payload_size = Word.ntohl r.payload_size;
  sequence_number = Word.ntohl r.sequence_number;
}

-- `(const char*)&rocket`: the object in memory, 40 bytes with no padding.
pub to_bytes : Rocket → Bytes
to_bytes r = r.hmac ++ (store32 r.payload_size ++ store32 r.sequence_number)

-- The object that 40 received bytes make.
pub from_bytes : Bytes → Rocket
from_bytes bs = record {
  hmac = take hmac_len bs;
  payload_size = load32 (take 4 (drop hmac_len bs));
  sequence_number = load32 (take 4 (drop (hmac_len + 4) bs));
}

abbrev pub size_of : ℕ
size_of = 40

module _ {C S : Type 0} (lib : Openssl C) where
  -- HMAC over the two fields as they stand in memory.
  unfoldable pub computehmac : Bytes → Rocket → M S Rocket
  computehmac auth_key r = do
    key ← or_fault (c_read auth_key 0 hmac_len)
    let message = store32 r.payload_size ++ store32 r.sequence_number
    tag ← or_throw (lib.hmac key message) ex_crypto_computation
    return (record r { hmac = tag })

  unfoldable pub verify : Bytes → ℕ → Rocket → M S Rocket
  verify auth_key expected_seq_num r = do
    let received_hmac = r.hmac
    r' ← computehmac auth_key r
    check (lib.memcmp r'.hmac received_hmac == 0) ex_bad_hmac
    check (not (ltb buffer_size r'.payload_size)) ex_bad_protocol
    check (r'.sequence_number == expected_seq_num) ex_bad_seq_num
    return r'
