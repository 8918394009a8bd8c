-- ===== src/Tests/Response.antt =====
-- An example for the client's reading of a reply.
use cybersec_proj.Base.{ℕ, ◌≡◌, refl, ok, Bytes, List, [], ◌∷◌, ◌++◌, arith, codes}
use cybersec_proj.Connection.Pipe.{Pipe, pipe, pipe_stream}
use cybersec_proj.Openssl.Toy.{toy, toy-IsSound}
use cybersec_proj.Text.{from_text}
use cybersec_proj.Crypto
use cybersec_proj.Crypto.{Link}
use cybersec_proj.Crypto.Channel.{Mark, mark_after, wire, Ready, SameSender, plaintext}
use cybersec_proj.Crypto.UpTo.{UpTo}
use cybersec_proj.ClientMain
use cybersec_proj.ClientMain.Response.{IsReply, last, more, recv_response_lem}
use cybersec_proj.Tests.Data.{key, carrying, fresh, initial-IsValid}

abbrev answer : Bytes
answer = codes "200" ++ (b'\n' ∷ b'\n' ∷ [])

abbrev messages : List Bytes
messages = (answer ++ codes "rest") ∷ []

abbrev start : Link Pipe ℕ
start = fresh (carrying (wire toy-IsSound key 32 32 refl 0 messages))

abbrev start_mark : Mark ℕ
start_mark = mark_after toy-IsSound 32 32 refl 0 messages

start-Ready : Ready pipe pipe_stream toy toy-IsSound start_mark start messages
unfolding Crypto.init
start-Ready = record {
  peer = 32;
  sync = refl;
  arrives = refl;
  messages = ((omega arith, omega arith), tt);
  ends = refl;
  counts = refl;
  room = omega arith;
  keyed = refl;
  valid = initial-IsValid;
}

answer-IsReply : IsReply 0 answer
answer-IsReply = more b'2' (omega arith) refl (
    more b'0' (omega arith) refl
      (more b'0' (omega arith) refl (more b'\n' (omega arith) refl last)))

recv_response_lem_example :
    (l' : Link Pipe ℕ) × (ps' : List Bytes) × (ClientMain.recv_response pipe toy start
      ≡ ok (from_text answer) l')
    × (plaintext pipe pipe_stream toy toy-IsSound l' ps' ≡ codes "rest")
    × Ready pipe pipe_stream toy toy-IsSound start_mark l' ps'
    × (l'.sock.outgoing ≡ [])
    × SameSender start l'
    × ((m : Bytes) → UpTo m start messages → UpTo m l' ps')
recv_response_lem_example =
    recv_response_lem pipe pipe_stream toy toy-IsSound answer (codes "rest") start messages
      start-Ready answer-IsReply refl (omega arith)
