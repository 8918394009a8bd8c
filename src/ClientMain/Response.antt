-- ===== src/ClientMain/Response.antt =====
-- What `recv_response` reads.
use cybersec_proj.Base.{
  ℕ, zero, suc, ◌≤◌, ◌<◌, ◌≡◌, ◌≢◌, ◌∙◌, refl, sym, ap, false, Bytes, List, [], ◌∷◌, ◌++◌, arith,
  length, ok, bind, ◌==◌, ◌&&◌,
}
use cybersec_proj.Protocol.{buffer_size}
use cybersec_proj.Text.{c_string, from_text}
use cybersec_proj.Openssl.{Openssl, IsSound}
use cybersec_proj.Connection.{Socket}
use cybersec_proj.Connection.Stream.{Stream}
use cybersec_proj.Crypto.{Link}
use cybersec_proj.Crypto.Channel.{Mark, Ready, SameSender, plaintext, recv-Delivered}
use cybersec_proj.Crypto.UpTo.{UpTo, UpTo-recv}
use cybersec_proj.ClientMain

-- After the byte `prev`, the text ends with its first two line feeds in a row, and has no zero byte.
pub data IsReply : ℕ → Bytes → Type 0 where
  last : IsReply b'\n' (b'\n' ∷ [])
  more :
      {prev : ℕ} (c : ℕ) {text : Bytes}
      → c ≢ 0
      → ((prev == b'\n') && (c == b'\n')) ≡ false
      → IsReply c text
      → IsReply prev (c ∷ text)

c_string-IsReply : (prev : ℕ) (text : Bytes) → IsReply prev text → c_string text ≡ text
unfolding c_string
c_string-IsReply _ _ last = refl
c_string-IsReply prev _ (more c {text = text} n e r) =
    let some_byte : (c == 0) ≡ false = ground arith in
    rw (some_byte, c_string-IsReply c text r) refl

reply_pos : (prev : ℕ) (text : Bytes) → IsReply prev text → 0 < length text
reply_pos _ _ last = omega arith
reply_pos prev _ (more c n e r) = omega arith

one_byte :
    (c : ℕ) (xs bs ys : Bytes)
    → 0 < length bs
    → length bs ≤ 1
    → c ∷ xs ≡ bs ++ ys
    → (bs ≡ c ∷ []) × (ys ≡ xs)
one_byte c xs [] ys h k e = absurd (omega arith)
one_byte c xs (b ∷ []) ys h k e = (cc, cc)
one_byte c xs (b ∷ b' ∷ bs) ys h k e = absurd (omega arith)

module _ {S C : Type 0} (os : Socket S) (net : Stream os) (lib : Openssl C)
    {InSync : C → C → Type 0} (sound : IsSound lib InSync) where
  recv_response_loop_lem :
      {mark : Mark C} (rounds prev : ℕ) (text rest : Bytes) (l : Link S C) (ps : List Bytes)
      → Ready os net lib sound mark l ps
      → IsReply prev text
      → plaintext os net lib sound l ps ≡ text ++ rest
      → length text ≤ rounds
      → (l' : Link S C) × (ps' : List Bytes) × (ClientMain.recv_response_loop os lib rounds prev l
          ≡ ok text l')
        × (plaintext os net lib sound l' ps' ≡ rest)
        × Ready os net lib sound mark l' ps'
        × (net.outbox l'.sock ≡ net.outbox l.sock)
        × SameSender l l'
        × ((m : Bytes) → UpTo m l ps → UpTo m l' ps')
  unfolding ClientMain.recv_response_loop ClientMain.next_byte
  recv_response_loop_lem zero prev text rest l ps h r e k =
      absurd (omega (arith, reply_pos prev text r))
  recv_response_loop_lem (suc rounds) _ _ rest l ps h last e k =
      let d =
        recv-Delivered os net lib sound l ps 1 h (omega arith)
          (omega (arith, ap (length {A = ℕ}) e)) in
      let (b, y) = one_byte b'\n' rest d.bytes _ d.some_bytes d.at_most (sym e ∙ d.split) in
      (
        d.after,
        d.left,
        rw (d.returns, bind, b) refl,
        y,
        d.ready,
        d.silent,
        d.sender,
        λ m u. UpTo-recv os net lib sound m l ps 1 d u,
      )
  recv_response_loop_lem (suc rounds) prev _ rest l ps h (more c {text = text} n t r) e k =
      let d =
        recv-Delivered os net lib sound l ps 1 h (omega arith)
          (omega (arith, ap (length {A = ℕ}) e)) in
      let (b, y) = one_byte c (text ++ rest) d.bytes _ d.some_bytes d.at_most (sym e ∙ d.split) in
      let (l', ps', q, y', h', o, w, v) =
        recv_response_loop_lem rounds c text rest d.after d.left d.ready r y (omega arith) in
      (
        l',
        ps',
        rw (d.returns, bind, b, t, q) refl,
        y',
        h',
        o ∙ d.silent,
        (w.0 ∙ d.sender.0, w.1 ∙ d.sender.1, w.2 ∙ d.sender.2),
        λ m u. v m (UpTo-recv os net lib sound m l ps 1 d u),
      )

  -- The plaintext that is about to arrive begins with a reply of at most BUFFER_SIZE - 1 bytes: a text
  -- without a zero byte that ends with its first two line feeds in a row. Then `recv_response` returns,
  -- leaves exactly that reply in `is`, has read nothing of what
  -- follows it, has sent nothing, and has left the sending half of the link as it was. Whoever stood before the
  -- last message still does, or has begun to read it.
  pub recv_response_lem :
      {mark : Mark C} (text rest : Bytes) (l : Link S C) (ps : List Bytes)
      → Ready os net lib sound mark l ps
      → IsReply 0 text
      → plaintext os net lib sound l ps ≡ text ++ rest
      → length text < buffer_size
      → (l' : Link S C) × (ps' : List Bytes) × (ClientMain.recv_response os lib l
          ≡ ok (from_text text) l')
        × (plaintext os net lib sound l' ps' ≡ rest)
        × Ready os net lib sound mark l' ps'
        × (net.outbox l'.sock ≡ net.outbox l.sock)
        × SameSender l l'
        × ((m : Bytes) → UpTo m l ps → UpTo m l' ps')
  unfolding ClientMain.recv_response
  recv_response_lem text rest l ps h r e k =
      let (l', ps', q, y, h', o, w, v) =
        recv_response_loop_lem 4095 0 text rest l ps h r e (omega arith) in
      (l', ps', rw (q, bind, c_string-IsReply 0 text r) refl, y, h', o, w, v)
