-- ===== src/Tests/Data.antt =====
-- The data of the examples.
use cybersec_proj.Base.{ℕ, ◌≡◌, refl, ok, Bytes, List, [], ◌∷◌, ◌++◌, codes, replicate, arith}
use cybersec_proj.Connection.Pipe.{Pipe, pipe, pipe_stream}
use cybersec_proj.Openssl.Toy.{toy, toy-IsSound}
use cybersec_proj.Crypto
use cybersec_proj.Crypto.{Crypto, Link, Statics, initial_statics}
use cybersec_proj.Crypto.Channel.{
  Mark, mark_after, IsMessage, All, wire, Ready, feed-Ready, SameSender,
}
use cybersec_proj.Crypto.Pending.{pending, IsValid}
use cybersec_proj.Crypto.Session.{send_each, send_each-wire}

abbrev pub key : Bytes
key = replicate 32 7

abbrev pub iv : Bytes
iv = replicate 16 1

abbrev pub quiet : Pipe
quiet = record { incoming = []; outgoing = [] }

abbrev pub carrying : Bytes → Pipe
carrying bytes = record { incoming = bytes; outgoing = [] }

abbrev pub fresh : Pipe → Link Pipe ℕ
fresh sock = record { sock = sock; crypto = Crypto.init toy key key iv; statics = initial_statics }

abbrev pub hello : Bytes
hello = codes "hello"

abbrev pub two_messages : List Bytes
two_messages = hello ∷ codes "world" ∷ []

pub two_messages-All : All IsMessage two_messages
two_messages-All = ((omega arith, omega arith), ((omega arith, omega arith), tt))

-- The sender after both messages.
pub sent_two :
    (l' : Link Pipe ℕ) × (send_each pipe toy two_messages (fresh quiet) ≡ ok tt l')
    × (l'.sock.outgoing ≡ [] ++ wire toy-IsSound key 32 32 refl 0 two_messages)
    × (l'.sock.incoming ≡ [])
unfolding Crypto.init
sent_two =
    let (l', q, o, i, _, _, _, _) =
      send_each-wire pipe pipe_stream toy toy-IsSound two_messages (fresh quiet) 32 refl
        two_messages-All refl (omega arith) in
    (l', q, o, i)

-- The bytes of both messages on the wire, and the receiver before them.
abbrev pub two_frames : Bytes
two_frames = wire toy-IsSound key 32 32 refl 0 two_messages

-- Where the sender stands after both.
abbrev pub two_mark : Mark ℕ
two_mark = mark_after toy-IsSound 32 32 refl 0 two_messages

pub initial-IsValid : IsValid initial_statics
initial-IsValid = record { within = omega arith; filled = refl }

pub two_ready :
    Ready pipe pipe_stream toy toy-IsSound two_mark (fresh (carrying two_frames)) two_messages
unfolding Crypto.init
two_ready = record {
  peer = 32;
  sync = refl;
  arrives = refl;
  messages = two_messages-All;
  ends = refl;
  counts = refl;
  room = omega arith;
  keyed = refl;
  valid = initial-IsValid;
}

-- The receiver after its first message.
pub one_fed :
    (l' : Link Pipe ℕ) × (Crypto.feed pipe toy (fresh (carrying two_frames)) ≡ ok tt l')
    × Ready pipe pipe_stream toy toy-IsSound two_mark l' (codes "world" ∷ [])
    × (pending l'.statics ≡ hello)
    × (l'.sock.outgoing ≡ [])
    × SameSender (fresh (carrying two_frames)) l'
one_fed =
    feed-Ready pipe pipe_stream toy toy-IsSound (fresh (carrying two_frames)) hello
      (codes "world" ∷ []) two_ready
