-- ===== src/Tests/Session.antt =====
-- Examples for the server's session.
use cybersec_proj.Base.Int.{pos}
use cybersec_proj.Base.{
  ℕ, ◌≤◌, ◌≡◌, refl, ok, Bytes, List, [], ◌++◌, length, arith, codes, replicate, some,
}
use cybersec_proj.Connection.Pipe.{Pipe, pipe, pipe_stream}
use cybersec_proj.Openssl.Toy.{toy, toy-IsSound}
use cybersec_proj.Text.{from_text}
use cybersec_proj.Crypto
use cybersec_proj.Crypto.{Link}
use cybersec_proj.Crypto.Channel.{concat, Ready, plaintext, SameSender}
use cybersec_proj.Server
use cybersec_proj.Server.{Client, full_path, size_line, status_line}
use cybersec_proj.Server.Reply.{Sent}
use cybersec_proj.Server.Retrieve.{send_content_lem}
use cybersec_proj.Crypto.{Link}
use cybersec_proj.Server.Store.{stor_loop_lem, Wrote}
use cybersec_proj.Tests.Disk.{Disk, disk, disk-IsStorage, set}
use cybersec_proj.Tests.Data.{carrying, fresh, hello, two_messages, two_frames, two_ready, two_mark}

abbrev file : Bytes
file = full_path (codes "notes.txt")

abbrev before : Disk
before = record { names = replicate 600 (codes "holiday"); content = λ p. some hello }

abbrev opened : Disk
opened = set before file (some [])

abbrev peer : ℕ
peer = (fresh (carrying two_frames)).crypto.ctx_e

abbrev client : Bytes → Client Pipe ℕ Disk
client text = record {
  link = fresh (carrying two_frames);
  is = from_text [];
  os = text;
  fs = opened;
}

send_content_lem_example :
    (c' : Client Pipe ℕ Disk) × (sent : List Bytes) × (Server.send_content pipe toy disk
        (pos 5)
        hello
        (client [])
      ≡ ok tt c')
    × Sent pipe pipe_stream toy toy-IsSound disk
        (fresh (carrying two_frames))
        peer
        refl
        c'.link
        sent
    × (concat sent ≡ size_line 5 ++ hello)
    × (length sent ≤ 3)
    × (c'.os ≡ [])
    × (c'.fs ≡ opened)
unfolding Crypto.init
send_content_lem_example =
    send_content_lem pipe pipe_stream toy toy-IsSound disk 5 hello (client []) peer refl refl
      (omega arith) refl (omega arith)

stor_loop_lem_example :
    (c' : Client Pipe ℕ Disk) × (left : List Bytes) × (content : Bytes) × (Server.stor_loop pipe toy
        disk 7 7 file
        (client [])
      ≡ ok tt c')
    × (c'.fs.content file ≡ some ([] ++ content))
    × (length content ≡ 7)
    × (concat two_messages ≡ content ++ plaintext pipe pipe_stream toy toy-IsSound c'.link left)
    × (c'.link.sock.outgoing ≡ [])
    × Ready pipe pipe_stream toy toy-IsSound two_mark c'.link left
    × SameSender (fresh (carrying two_frames)) c'.link
    × (c'.os ≡ [])
    × Wrote disk file opened c'.fs
stor_loop_lem_example =
    stor_loop_lem pipe pipe_stream toy toy-IsSound disk disk-IsStorage 7 7 file [] (client [])
      two_messages two_ready (omega arith) (omega arith)
      (disk-IsStorage.create_empty before opened file refl)
