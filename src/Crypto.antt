-- ===== src/Crypto.antt =====
-- src/common/crypto.h and crypto.cpp: messages over a connection, encrypted and authenticated.
pub mod Wire
pub mod Receive
pub mod Pending
pub mod Channel
pub mod Marks
pub mod Session
pub mod Accepted
pub mod Sharing
pub mod Reflection
pub mod UpTo
pub mod Whole
use cybersec_proj.Base.{
  ℕ, ◌+◌, ◌-◌, ◌%◌, Bool, ◌&&◌, Bytes, ◌++◌, ltb, leb, ◌==◌, not, if◌then◌else◌, take, drop, length,
  replicate, M, ◌>>=◌, ◌>>◌, return, gets, modify, check, defined, or_throw, zoom,
}
use cybersec_proj.Exception.{ex_crypto_computation, ex_recv, ex_seq_num_overflow}
use cybersec_proj.Protocol.{buffer_size, aes128_key_len}
use cybersec_proj.Word.{u32_mod}
use cybersec_proj.Openssl.{Openssl}
use cybersec_proj.Connection
use cybersec_proj.Connection.{Socket}
use cybersec_proj.Rocket
use cybersec_proj.Rocket.{Rocket}
use cybersec_proj.SpaceCraft

pub record Crypto (C : Type 0) : Type 0 where
  pub ctx_e : C
  pub ctx_d : C
  pub auth_key : Bytes
  pub sequence_number_i : ℕ
  pub sequence_number_o : ℕ

-- The static variables of `Crypto::recv`. They belong to the process, not to one `Crypto`.
pub record Statics : Type 0 where
  pub remaining : ℕ
  pub index : ℕ
  pub payload : Bytes

-- At the start of the process.
abbrev pub initial_statics : Statics
initial_statics = record { remaining = 0; index = 0; payload = replicate buffer_size 0 }

-- What a call of `send` or `recv` works on: the connection's socket, the `Crypto` and the statics.
pub record Link (S C : Type 0) : Type 0 where
  pub sock : S
  pub crypto : Crypto C
  pub statics : Statics

-- Whether the constructor reads inside its texts: OpenSSL takes 16 bytes of the key and of the IV,
-- where each may end with its final zero byte.
abbrev pub can_init : Bytes → Bytes → Bool
can_init session_key iv =
    leb aes128_key_len (length session_key + 1) && leb aes128_key_len (length iv + 1)

-- `Crypto(session_key, auth_key, iv)`, where it reads inside its texts.
unfoldable pub init : {C : Type 0} → Openssl C → Bytes → Bytes → Bytes → Crypto C
init lib session_key auth_key iv = record {
  ctx_e = lib.encrypt_init session_key iv;
  ctx_d = lib.decrypt_init session_key iv;
  auth_key = auth_key;
  sequence_number_i = 0;
  sequence_number_o = 0;
}

module _ {S C : Type 0} where
  -- Code over the connection alone.
  abbrev pub on_socket : {A : Type 0} → M S A → M (Link S C) A
  on_socket = zoom (λ l. l.sock) (λ s l. record l { sock = s })

  abbrev pub set_ctx_e : C → Link S C → Link S C
  set_ctx_e c l = record l { crypto = record (l.crypto) { ctx_e = c } }

  abbrev pub set_ctx_d : C → Link S C → Link S C
  set_ctx_d c l = record l { crypto = record (l.crypto) { ctx_d = c } }

  abbrev pub set_sequence_number_i : ℕ → Link S C → Link S C
  set_sequence_number_i n l = record l { crypto = record (l.crypto) { sequence_number_i = n } }

  abbrev pub set_sequence_number_o : ℕ → Link S C → Link S C
  set_sequence_number_o n l = record l { crypto = record (l.crypto) { sequence_number_o = n } }

  -- `sequence_number_o++` and `sequence_number_i++`, on uint32_t.
  pub next_o : M (Link S C) ℕ
  next_o = do
    n ← gets λ l. l.crypto.sequence_number_o
    modify (set_sequence_number_o ((n + 1) % u32_mod))
    return n

  pub next_i : M (Link S C) ℕ
  next_i = do
    n ← gets λ l. l.crypto.sequence_number_i
    modify (set_sequence_number_i ((n + 1) % u32_mod))
    return n

  -- `recv` copies from the payload that is left: `memcpy(buffer, payload + index, r)`.
  pub copy_out : ℕ → M (Link S C) Bytes
  copy_out size = do
    st ← gets λ l. l.statics
    let r = if ltb st.remaining size then st.remaining else size
    defined (leb (st.index + r) buffer_size)
    modify
        λ l. record l { statics = record st { index = st.index + r; remaining = st.remaining - r } }
    return (take r (drop st.index st.payload))

module _ {S C : Type 0} (os : Socket S) (lib : Openssl C) where
  -- `encrypt(encrypted_payload, plaintext, size)` writes as many bytes as it is given into a buffer
  -- of BUFFER_SIZE bytes on the stack, unless the cipher fails, which it does before it writes.
  pub encrypt : Bytes → M (Link S C) Bytes
  encrypt source = do
    ctx ← gets λ l. l.crypto.ctx_e
    (dest, ctx') ← or_throw (lib.encrypt_update ctx source) ex_crypto_computation
    defined (leb (length source) buffer_size)
    modify (set_ctx_e ctx')
    defined (length dest == length source)
    return dest

  pub decrypt : Bytes → M (Link S C) Bytes
  decrypt source = do
    ctx ← gets λ l. l.crypto.ctx_d
    (dest, ctx') ← or_throw (lib.decrypt_update ctx source) ex_crypto_computation
    modify (set_ctx_d ctx')
    defined (length dest == length source)
    return dest

  -- Every `connection->send` that returned was positive, so the last test of the code passes.
  pub send : Bytes → M (Link S C) ℕ
  send plaintext = do
    let size = length plaintext
    encrypted_payload ← encrypt plaintext
    auth_key ← gets λ l. l.crypto.auth_key
    seq ← next_o
    rocket ← Rocket.computehmac lib auth_key (Rocket.init size seq)
    seq' ← next_o
    craft ← SpaceCraft.computehmac lib auth_key encrypted_payload (SpaceCraft.init seq')
    r1 ← on_socket (Connection.send os (Rocket.to_bytes (Rocket.htonl rocket)))
    r2 ← on_socket (Connection.send os (SpaceCraft.to_bytes (SpaceCraft.htonl craft)))
    r3 ← on_socket (Connection.send os encrypted_payload)
    last ← gets λ l. l.crypto.sequence_number_o
    check (not (last == 0)) ex_seq_num_overflow
    return (r1 + r2 + r3)

  -- `connection->recv(...) != n` throws; what was received then has `n` bytes.
  pub recv_exactly : ℕ → M (Link S C) Bytes
  recv_exactly n = do
    raw ← on_socket (Connection.recv os n)
    check (length raw == n) ex_recv
    return raw

  -- The rocket is received and verified.
  pub recv_rocket : M (Link S C) Rocket
  recv_rocket = do
    auth_key ← gets λ l. l.crypto.auth_key
    raw ← recv_exactly Rocket.size_of
    seq ← next_i
    Rocket.verify lib auth_key seq (Rocket.ntohl (Rocket.from_bytes raw))

  -- The spacecraft and the encrypted payload are received and verified.
  pub recv_payload : ℕ → M (Link S C) Bytes
  recv_payload size = do
    auth_key ← gets λ l. l.crypto.auth_key
    raw ← recv_exactly SpaceCraft.size_of
    encrypted_payload ← recv_exactly size
    seq ← next_i
    _ ←
        SpaceCraft.verify lib auth_key seq encrypted_payload
          (SpaceCraft.ntohl (SpaceCraft.from_bytes raw))
    return encrypted_payload

  -- "if everything is good, finally decrypt": into the static payload, and count it as unread.
  pub open_payload : ℕ → Bytes → M (Link S C) (Unit {0})
  open_payload size encrypted_payload = do
    plain ← decrypt encrypted_payload
    modify λ l. record l {
      statics = record {
        remaining = size;
        index = 0;
        payload = plain ++ drop (length plain) (l.statics.payload);
      };
    }
    last ← gets λ l. l.crypto.sequence_number_i
    check (not (last == 0)) ex_seq_num_overflow

  -- The first half of `recv`, "feeding from TCP": one whole message into the static payload.
  pub feed : M (Link S C) (Unit {0})
  feed = do
    rocket ← recv_rocket
    encrypted_payload ← recv_payload rocket.payload_size
    open_payload rocket.payload_size encrypted_payload

  -- The bytes copied into the caller's buffer; their number is the result of the code.
  pub recv : ℕ → M (Link S C) Bytes
  recv size = do
    left ← gets λ l. l.statics.remaining
    if left == 0 then feed else return tt
    copy_out size
