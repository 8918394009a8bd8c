-- ===== src/Tests/Channel.antt =====
-- Examples for the secure channel.
use cybersec_proj.Base.{ℕ, ◌≤◌, ◌≡◌, refl, sym, ok, Bytes, [], ◌∷◌, ◌++◌, length, arith, codes}
use cybersec_proj.Connection.Pipe.{Pipe, pipe, pipe_stream}
use cybersec_proj.Openssl.Toy.{toy, toy-IsSound}
use cybersec_proj.Crypto
use cybersec_proj.Crypto.{Crypto, Link, Statics, initial_statics}
use cybersec_proj.Crypto.Channel.{concat, Delivered, recv-Delivered}
use cybersec_proj.Crypto.Session.{recv_each, session_delivers}
use cybersec_proj.Crypto.Accepted.{Accepted, feed-Accepted}
use cybersec_proj.Crypto.Reflection.{reflected_delivered}
use cybersec_proj.Crypto.Sharing.{recv_crosses_sessions}
use cybersec_proj.Tests.Data.{
  key, iv, quiet, carrying, fresh, hello, two_messages, two_messages-All, sent_two, two_frames,
  two_ready, two_mark, initial-IsValid, one_fed,
}

-- The bytes of `sent_two` arrive at their own sender.
reflected_delivered_example :
    (bs : Bytes) × (b' : Link Pipe ℕ) × (rest : Bytes) × (recv_each pipe toy
        (4 ∷ 3 ∷ [])
        (record (sent_two.0) { sock = carrying two_frames })
      ≡ ok bs b')
    × (concat two_messages ≡ bs ++ rest)
    × (2 ≤ length bs)
reflected_delivered_example =
    reflected_delivered pipe pipe_stream toy toy-IsSound key key iv quiet (carrying two_frames)
      initial_statics (sent_two.0) two_messages (4 ∷ 3 ∷ []) refl two_messages-All (omega arith)
      refl initial-IsValid refl (sent_two.1) (sym (sent_two.2)) (omega arith, (omega arith, tt))
      (omega arith)

session_delivers_example :
    (bs : Bytes) × (b' : Link Pipe ℕ) × (rest : Bytes) × (recv_each pipe toy
        (4 ∷ 3 ∷ [])
        (fresh (carrying two_frames))
      ≡ ok bs b')
    × (concat two_messages ≡ bs ++ rest)
    × (2 ≤ length bs)
    × (length bs ≤ 7)
session_delivers_example =
    session_delivers pipe pipe_stream toy toy-IsSound key key iv quiet (carrying two_frames)
      initial_statics initial_statics (sent_two.0) two_messages (4 ∷ 3 ∷ []) refl two_messages-All
      (omega arith) refl (sent_two.1) (sym (sent_two.2)) initial-IsValid refl
      (omega arith, (omega arith, tt)) (omega arith)

recv-Delivered_example :
    Delivered pipe pipe_stream toy toy-IsSound two_mark (fresh (carrying two_frames)) two_messages 3
recv-Delivered_example =
    recv-Delivered pipe pipe_stream toy toy-IsSound (fresh (carrying two_frames)) two_messages 3
      two_ready (omega arith) (omega arith)

feed-Accepted_example :
    Accepted pipe pipe_stream toy toy-IsSound (fresh (carrying two_frames)) (one_fed.0)
unfolding Crypto.init
feed-Accepted_example =
    feed-Accepted pipe pipe_stream toy toy-IsSound (fresh (carrying two_frames)) (one_fed.0) refl
      (one_fed.1)

recv_crosses_sessions_example :
    (a' : Link Pipe ℕ) × (st' : Statics) × (Crypto.recv pipe toy 2 (fresh (carrying two_frames))
      ≡ ok (codes "he") a')
    × (Crypto.recv pipe toy 9
          (record { sock = quiet; crypto = Crypto.init toy iv iv key; statics = a'.statics })
        ≡ ok
            (codes "llo")
            (record { sock = quiet; crypto = Crypto.init toy iv iv key; statics = st' }))
recv_crosses_sessions_example =
    recv_crosses_sessions pipe pipe_stream toy toy-IsSound (fresh (carrying two_frames)) hello
      (codes "world" ∷ []) 2 9 quiet (Crypto.init toy iv iv key) two_ready refl (omega arith)
