-- ===== src/Connection/Strings.antt =====
-- Texts over a stream: what `send(string&)` writes and `recv(string&)` reads back.
use cybersec_proj.Base.{
  ℕ, ◌+◌, ◌≤◌, ◌<◌, ◌≡◌, ◌∙◌, ap, Bytes, ◌++◌, append_assoc, arith, length, ok, throws, lt→ltb, [],
  ltb-false, ==_refl, bind,
}
use native.Mathlib.Nat.{mod-eq_of_lt}
use cybersec_proj.Exception.{ex_send, ex_too_big}
use cybersec_proj.Protocol.{buffer_size}
use cybersec_proj.Word.{u32_mod, network32, store32-htonl, ntohl-load32-network32}
use cybersec_proj.Connection
use cybersec_proj.Connection.{Socket}
use cybersec_proj.Connection.Stream.{Stream, recv_lem, send_lem, send_empty}

-- The bytes of a text on the wire: its length, most significant byte first, and the text.
abbrev pub text_frame : Bytes → Bytes
text_frame text = network32 (length text) ++ text

module _ {S : Type 0} (os : Socket S) (net : Stream os) where
  open net use {inbox, outbox}

  pub send_string_lem :
      (s : S) (text : Bytes)
      → 0 < length text
      → length text < u32_mod
      → (s' : S) × (Connection.send_string os text s ≡ ok (4 + length text) s')
        × (inbox s' ≡ inbox s)
        × (outbox s' ≡ outbox s ++ text_frame text)
  unfolding Connection.send_string
  send_string_lem s text h k =
      let (s1, r1, i1, o1) = send_lem os net s (network32 (length text)) (omega arith) in
      let (s2, r2, i2, o2) = send_lem os net s1 text h in
      (
        s2,
        rw (mod-eq_of_lt k, store32-htonl, r1, bind, r2),
        i2 ∙ i1,
        o2 ∙ ap (λ (bs : Bytes). bs ++ text) o1 ∙ append_assoc (outbox s) _ text,
      )

  -- A framed text of 1 to BUFFER_SIZE bytes is read whole, and what follows it is left.
  pub recv_string_lem :
      (s : S) (text rest : Bytes)
      → 0 < length text
      → length text ≤ buffer_size
      → inbox s ≡ text_frame text ++ rest
      → (s' : S) × (Connection.recv_string os s ≡ ok (text, 4 + length text) s')
        × (inbox s' ≡ rest)
        × (outbox s' ≡ outbox s)
  unfolding Connection.recv_string
  recv_string_lem s text rest h k e =
      let (s1, r1, i1, o1) =
        recv_lem os net s (network32 (length text)) (text ++ rest) (omega arith) e in
      let (s2, r2, i2, o2) = recv_lem os net s1 text rest h i1 in
      (
        s2,
        rw (
          r1,
          bind,
          ntohl-load32-network32 (length text) (omega arith),
          ltb-false _ _ k,
          r2,
          bind,
          ==_refl,
        ),
        i2,
        o2 ∙ o1,
      )

  -- A text with a length above the buffer's is refused after its four length bytes.
  pub recv_string_too_big :
      (s : S) (n : ℕ) (rest : Bytes)
      → buffer_size < n
      → n < u32_mod
      → inbox s ≡ network32 n ++ rest
      → (s' : S) × (Connection.recv_string os s ≡ throws ex_too_big s') × (inbox s' ≡ rest)
  unfolding Connection.recv_string
  recv_string_too_big s n rest h k e =
      let (s1, r1, i1, o1) = recv_lem os net s (network32 n) rest (omega arith) e in
      (s1, rw (r1, bind, ntohl-load32-network32 n k, lt→ltb _ _ h), i1)

  -- An empty text cannot be sent: its length goes out, and the exception comes after.
  pub send_string_empty :
      (s : S)
      → (s' : S) × (Connection.send_string os [] s ≡ throws ex_send s')
        × (outbox s' ≡ outbox s ++ network32 0)
  unfolding Connection.send_string
  send_string_empty s =
      let (s1, r1, i1, o1) = send_lem os net s (network32 0) (omega arith) in
      let (s2, r2, o2) = send_empty os net s1 in (s2, rw (store32-htonl, r1, bind, r2), o2 ∙ o1)
