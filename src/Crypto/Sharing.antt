-- ===== src/Crypto/Sharing.antt =====
-- The static variables of `Crypto::recv` are one for the whole process, and the server runs one
-- thread for each client: two sessions that share them.
use cybersec_proj.Base.{
  ℕ, ◌<◌, ◌≡◌, ◌≢◌, ◌∙◌, ap, Bytes, List, ◌∷◌, arith, take, drop, length, ◌-◌, length-drop, ok,
  bind, ◌==◌, ==_iff, false,
}
use cybersec_proj.Openssl.{Openssl, IsSound}
use cybersec_proj.Connection.{Socket}
use cybersec_proj.Connection.Stream.{Stream}
use cybersec_proj.Crypto
use cybersec_proj.Crypto.{Crypto, Link, Statics}
use cybersec_proj.Crypto.Pending.{pending, IsValid, length-pending, copy_out_lem}
use cybersec_proj.Crypto.Channel.{Mark, Ready, feed-Ready, copy-Ready}

module _ {S C : Type 0} (os : Socket S) (lib : Openssl C) where
  -- While bytes are left, `recv` uses neither the socket nor the keys of the session it is called on.
  recv_pending :
      (l : Link S C) (n : ℕ)
      → IsValid l.statics
      → l.statics.remaining ≢ 0
      → (st' : Statics) × (Crypto.recv os lib n l
          ≡ ok (take n (pending l.statics)) (record l { statics = st' }))
  unfolding Crypto.recv
  recv_pending l n v h =
      let (st', r, e, v') = copy_out_lem l n v in
      let more : (l.statics.remaining == 0) ≡ false = ground arith in (st', rw more r)

module _ {S C : Type 0} (os : Socket S) (net : Stream os) (lib : Openssl C)
    {InSync : C → C → Type 0} (sound : IsSound lib InSync) where
  -- A session `a` receives the message `p` and reads its first `n` bytes only. The next `recv` of any
  -- other session, with a socket and keys of its own, returns bytes of the rest of `p`, and leaves
  -- its socket and its keys as they were.
  pub recv_crosses_sessions :
      {mark : Mark C} (a : Link S C) (p : Bytes) (ps : List Bytes) (n m : ℕ) (sock : S)
      (crypto : Crypto C)
      → Ready os net lib sound mark a (p ∷ ps)
      → a.statics.remaining ≡ 0
      → n < length p
      → (a' : Link S C) × (st' : Statics) × (Crypto.recv os lib n a ≡ ok (take n p) a')
        × (Crypto.recv os lib m (record { sock = sock; crypto = crypto; statics = a'.statics })
            ≡ ok (take m (drop n p)) (record { sock = sock; crypto = crypto; statics = st' }))
  unfolding Crypto.recv
  recv_crosses_sessions a p ps n m sock crypto h z k =
      let (l1, r1, h1, p1, o1, _) = feed-Ready os net lib sound a p ps h in
      let (l2, r2, h2, p2, o2, _) = copy-Ready os net lib sound l1 ps n h1 in
      let left : length (pending l2.statics) ≡ length p - n =
        ap (length {A = ℕ}) p2
        ∙ length-drop n (pending l1.statics)
        ∙ ap (λ (bs : Bytes). length bs - n) p1 in
      let (st', r3) =
        recv_pending os lib (record { sock = sock; crypto = crypto; statics = l2.statics }) m
          h2.valid (omega (arith, length-pending l2.statics h2.valid)) in
      (l2, st', rw ((==_iff _ _).1 z, r1, bind, r2, p1), r3 ∙ rw (p2, p1))
