-- ===== src/Connection.antt =====
-- src/common/connection.cpp: sends and receives over a TCP socket. The operating system's `send` and
-- `recv` are a parameter over an unknown state of the socket.
pub mod Stream
pub mod Strings
pub mod Pipe
use cybersec_proj.Base.{
  ℕ, zero, suc, ◌+◌, ◌%◌, Bytes, [], ◌∷◌, Option, none, some, ltb, ◌==◌, not, if◌then◌else◌, length,
  Outcome, ok, throws, M, ◌>>=◌, ◌>>◌, return, check, defined, or_throw, Bool,
}
use cybersec_proj.Exception.{ex_send, ex_recv, ex_too_big, ex_socket, ex_connect}
use cybersec_proj.Protocol.{buffer_size}
use cybersec_proj.Word.{u32_mod, store32, load32, htonl, ntohl}

-- `::send(sd, buffer, len, MSG_NOSIGNAL)` and `::recv(sd, buffer, len, MSG_WAITALL)`. `none` is a
-- negative result; `send` gives the count of the bytes taken, `recv` the bytes received.
pub record Socket (S : Type 0) : Type 0 where
  pub send : S → Bytes → Option ℕ × S
  pub recv : S → ℕ → Option Bytes × S

-- `if (ret <= 0) throw ExSend(...)`.
sent : {S : Type 0} → Option ℕ × S → Outcome S ℕ
sent (none, s) = throws ex_send s
sent (some zero, s) = throws ex_send s
sent (some (suc n), s) = ok (suc n) s

-- `if (ret <= 0) throw ExRecv(...)`.
received : {S : Type 0} → Option Bytes × S → Outcome S Bytes
received (none, s) = throws ex_recv s
received (some [], s) = throws ex_recv s
received (some (b ∷ bs), s) = ok (b ∷ bs) s

module _ {S : Type 0} (os : Socket S) where
  unfoldable pub send : Bytes → M S ℕ
  unfolding sent
  send buffer s = sent (os.send s buffer)

  unfoldable pub recv : ℕ → M S Bytes
  unfolding received
  recv len s = received (os.recv s len)

  -- `send(string&)`: the length in network order, then the text. Both sends have thrown if they
  -- failed, so the sum is returned.
  unfoldable pub send_string : Bytes → M S ℕ
  send_string buffer = do
    ret1 ← send (store32 (htonl (length buffer % u32_mod)))
    ret2 ← send buffer
    return (ret1 + ret2)

  -- `recv(string&)`: the text received and the count of all bytes read. A short read leaves bytes of
  -- `size`, or of the new buffer, that nothing has written.
  unfoldable pub recv_string : M S (Bytes × ℕ)
  recv_string = do
    raw ← recv 4
    defined (length raw == 4)
    let size = ntohl (load32 raw)
    check (not (ltb buffer_size size)) ex_too_big
    text ← recv size
    defined (length text == size)
    return (text, length raw + length text)

-- What the operating system answers to a client that opens a connection: whether ::socket succeeds, and
-- the connected socket that ::connect makes to an address and a port, `none` if it fails.
pub record Network (S : Type 0) : Type 0 where
  pub socket : Bool
  pub connect : Bytes → ℕ → Option S

-- `Connection(hostname, port)`.
unfoldable pub open_connection : {S T : Type 0} → Network S → Bytes → ℕ → M T S
open_connection network hostname port = do
  check (network.socket) ex_socket
  or_throw (network.connect hostname port) ex_connect
