-- ===== src/Connection/Stream.antt =====
-- A blocking stream socket, by the bytes that will still arrive and those already sent, and what
-- the connection does over one.
use cybersec_proj.Base.{
  ℕ, ◌≤◌, ◌<◌, ◌≡◌, ◌∙◌, refl, sym, Bytes, [], ◌∷◌, ◌++◌, some, arith, take, drop, length, ok,
  throws, length-take, take-append-drop, append-nil, inl, inr, ◌⊎◌,
}
use native.Mathlib.Decide.{dec_le}
use cybersec_proj.Exception.{ex_send, ex_recv}
use cybersec_proj.Connection
use cybersec_proj.Connection.{Socket}

-- The documented behaviour of a blocking socket that no signal interrupts: `recv` with MSG_WAITALL
-- waits for all the bytes asked for, and gives fewer only at the end of the stream; `send` takes all.
pub record Stream {S : Type 0} (os : Socket S) : Type 0 where
  pub inbox : S → Bytes
  pub outbox : S → Bytes
  pub recv_full :
      (s : S) (n : ℕ) (xs ys : Bytes)
      → inbox s ≡ xs ++ ys
      → length xs ≡ n
      → (s' : S) × (os.recv s n ≡ (some xs, s')) × (inbox s' ≡ ys) × (outbox s' ≡ outbox s)
  pub recv_end :
      (s : S) (n : ℕ)
      → length (inbox s) ≤ n
      → (s' : S) × (os.recv s n ≡ (some (inbox s), s')) × (inbox s' ≡ []) × (outbox s' ≡ outbox s)
  pub send_all :
      (s : S) (bs : Bytes)
      → (s' : S) × (os.send s bs ≡ (some (length bs), s'))
        × (inbox s' ≡ inbox s)
        × (outbox s' ≡ outbox s ++ bs)

module _ {S : Type 0} (os : Socket S) (net : Stream os) where
  open net use {inbox, outbox, recv_full, recv_end, send_all}

  -- A receive of all that is asked for.
  pub recv_lem :
      (s : S) (xs ys : Bytes)
      → 0 < length xs
      → inbox s ≡ xs ++ ys
      → (s' : S) × (Connection.recv os (length xs) s ≡ ok xs s')
        × (inbox s' ≡ ys)
        × (outbox s' ≡ outbox s)
  unfolding Connection.recv
  recv_lem s [] ys h e = elim h [ ]
  recv_lem s (x ∷ xs) ys h e =
      let (s', r, i, o) = recv_full s _ (x ∷ xs) ys e refl in (s', rw r, i, o)

  -- At the end of the stream, and where nothing is asked for, a receive throws.
  pub recv_at_end :
      (s : S) (n : ℕ)
      → (n ≡ 0) ⊎ (inbox s ≡ [])
      → (s' : S) × (Connection.recv os n s ≡ throws ex_recv s')
  unfolding Connection.recv
  recv_at_end s n (inl e) =
      let (s', r, i, o) = recv_full s 0 [] (inbox s) refl refl in (s', rw (e, r))
  recv_at_end s n (inr e) = let (s', r, i, o) = recv_end s n (rw e (omega arith)) in (s', rw (r, e))

  pub send_lem :
      (s : S) (bs : Bytes)
      → 0 < length bs
      → (s' : S) × (Connection.send os bs s ≡ ok (length bs) s')
        × (inbox s' ≡ inbox s)
        × (outbox s' ≡ outbox s ++ bs)
  unfolding Connection.send
  send_lem s [] h = elim h [ ]
  send_lem s (b ∷ bs) h = let (s', r, i, o) = send_all s (b ∷ bs) in (s', rw r, i, o)

  pub send_empty :
      (s : S) → (s' : S) × (Connection.send os [] s ≡ throws ex_send s') × (outbox s' ≡ outbox s)
  unfolding Connection.send
  send_empty s = let (s', r, i, o) = send_all s [] in (s', rw r, o ∙ append-nil (outbox s))

  received-prefix :
      (n : ℕ) {bs : Bytes} (got rest : Bytes) (t s' : S) (xs : Bytes)
      → got ++ rest ≡ bs
      → inbox t ≡ rest
      → length got ≤ n
      → Connection.received (some got, t) ≡ ok xs s'
      → (bs ≡ xs ++ inbox s') × (length xs ≤ n) × (0 < length xs)
  unfolding Connection.recv
  received-prefix n [] rest t s' xs e i l h = cc
  received-prefix n (b ∷ got) rest t s' xs e i l h = ground arith

  -- What a receive returns was at the front of the stream.
  pub recv-prefix :
      (s s' : S) (n : ℕ) (xs : Bytes)
      → Connection.recv os n s ≡ ok xs s'
      → (inbox s ≡ xs ++ inbox s') × (length xs ≤ n) × (0 < length xs)
  unfolding Connection.recv
  recv-prefix s s' n xs h = elim (dec_le n (length (inbox s))) [
    | yes p ↦
        let (t, r, i, o) =
          recv_full s n (take n (inbox s)) (drop n (inbox s)) (sym (take-append-drop n (inbox s)))
            (omega (arith, length-take n (inbox s))) in
        received-prefix n (take n (inbox s)) (drop n (inbox s)) t s' xs
          (take-append-drop n (inbox s)) i (omega (arith, length-take n (inbox s))) (rw r at h)
    | no p ↦
        let (t, r, i, o) = recv_end s n (omega arith) in
        received-prefix n (inbox s) [] t s' xs (append-nil (inbox s)) i (omega arith) (rw r at h)
  ]
