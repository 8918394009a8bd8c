-- ===== src/Tests/Sessions.antt =====
-- An example for the server's reading of a command.
use cybersec_proj.Base.{ℕ, ◌≡◌, refl, ok, bind, Bytes, [], ◌∷◌, codes, some}
use cybersec_proj.Connection.Pipe.{Pipe, pipe}
use cybersec_proj.Openssl.Toy.{toy, toy-IsSound}
use cybersec_proj.Text.{from_text}
use cybersec_proj.Crypto.Channel.{wire}
use cybersec_proj.ClientMain
use cybersec_proj.ClientMain.Program.{retr_line}
use cybersec_proj.Server
use cybersec_proj.Server.{Client, full_path}
use cybersec_proj.Server.Request.{lifted, recv_cmd-eq-recv_response}
use cybersec_proj.Tests.Data.{key, carrying, fresh, hello}
use cybersec_proj.Tests.Disk.{Disk, disk}

abbrev name : Bytes
name = codes "notes.txt"

abbrev served : Disk
served = record { names = name ∷ []; content = λ p. some hello }

abbrev client : Pipe → Client Pipe ℕ Disk
client sock = record { link = fresh sock; is = from_text []; os = []; fs = served }

-- The server before a RETR command.
abbrev asked : Client Pipe ℕ Disk
asked = client (carrying (wire toy-IsSound key 32 32 refl 0 (retr_line name ∷ [])))

recv_cmd-eq-recv_response_example :
    Server.recv_cmd pipe toy disk asked
    ≡ bind
        (lifted pipe toy disk asked (ClientMain.recv_response pipe toy asked.link))
        (λ is' c'. ok tt (record c' { is = is' }))
recv_cmd-eq-recv_response_example = recv_cmd-eq-recv_response pipe toy disk asked
