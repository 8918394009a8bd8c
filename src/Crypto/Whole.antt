-- ===== src/Crypto/Whole.antt =====
-- A call of `recv` that asks for exactly the next message.
use cybersec_proj.Base.{
  ℕ, ◌≡◌, ◌∙◌, ap, true, Bytes, List, [], ◌∷◌, arith, length, ok, take, drop, take_all, drop_all,
  ◌==◌,
}
use cybersec_proj.Openssl.{Openssl, IsSound}
use cybersec_proj.Connection.{Socket}
use cybersec_proj.Connection.Stream.{Stream}
use cybersec_proj.Crypto
use cybersec_proj.Crypto.{Link}
use cybersec_proj.Crypto.Pending.{pending, length-pending}
use cybersec_proj.Crypto.Channel.{Mark, Ready, SameSender, feed-Ready, copy-Ready}

module _ {S C : Type 0} (os : Socket S) (net : Stream os) (lib : Openssl C)
    {InSync : C → C → Type 0} (sound : IsSound lib InSync) where
  open net use {outbox}

  -- With nothing left of the last payload, `recv` of as many bytes as the next message has returns that
  -- message.
  pub recv_whole :
      {mark : Mark C} (l : Link S C) (m : Bytes) (ps : List Bytes)
      → Ready os net lib sound mark l (m ∷ ps)
      → pending l.statics ≡ []
      → (l' : Link S C) × (Crypto.recv os lib (length m) l ≡ ok m l')
        × Ready os net lib sound mark l' ps
        × (pending l'.statics ≡ [])
        × (outbox l'.sock ≡ outbox l.sock)
        × SameSender l l'
  unfolding Crypto.recv
  recv_whole l m ps h e =
      let none_left : (l.statics.remaining == 0) ≡ true =
        ground (arith, length-pending l.statics h.valid, ap (length {A = ℕ}) e) in
      let (l1, q1, h1, p1, o1, w1) = feed-Ready os net lib sound l m ps h in
      let (l2, q2, h2, p2, o2, w2) = copy-Ready os net lib sound l1 ps (length m) h1 in
      let all : take (length m) (pending l1.statics) ≡ m =
        ap (take (length m)) p1 ∙ take_all (length m) m (omega arith) in
      (
        l2,
        rw (none_left, q1) (q2 ∙ ap (λ (bs : Bytes). ok bs l2) all),
        h2,
        p2 ∙ ap (drop (length m)) p1 ∙ drop_all (length m) m (omega arith),
        o2 ∙ o1,
        (w2.0 ∙ w1.0, w2.1 ∙ w1.1, w2.2 ∙ w1.2),
      )
