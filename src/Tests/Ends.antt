-- ===== src/Tests/Ends.antt =====
-- Two ends of one session for the examples.
use cybersec_proj.Base.{ℕ, ◌≡◌, refl, true, Bytes, [], ◌∷◌, codes, some}
use cybersec_proj.Connection.Pipe.{Pipe, pipe_stream}
use cybersec_proj.Text.{from_text}
use cybersec_proj.Crypto
use cybersec_proj.ClientMain.Program.{Program, Local}
use cybersec_proj.Server.{Client}
use cybersec_proj.Transfer.Joint.{InSession}
use cybersec_proj.Transfer.Exchange.{Delivers}
use cybersec_proj.Tests.Data.{quiet, carrying, fresh, hello, initial-IsValid}
use cybersec_proj.Tests.Disk.{Disk, disk}

abbrev pub name : Bytes
name = codes "notes.txt"

abbrev pub full : Disk
full = record { names = name ∷ []; content = λ p. some hello }

abbrev pub server_with : Disk → Client Pipe ℕ Disk
server_with d = record { link = fresh quiet; is = from_text []; os = []; fs = d }

abbrev pub client : Client Pipe ℕ Disk
client = server_with full

abbrev pub machine : Local Disk
machine = record { files = disk; stat = λ d path. true; reopen = λ d path. d.content path }

abbrev pub program : Program Pipe ℕ Disk
program = record { link = fresh quiet; is = from_text []; fs = full; out = [] }

abbrev pub deliver : Bytes → Pipe → Pipe
deliver bytes sock = carrying bytes

pub deliver-Delivers : Delivers pipe_stream deliver
deliver-Delivers = record { arrives = λ bs s. refl; fresh = λ bs s. refl }

pub both_with : (d : Disk) → InSession (λ e d. e ≡ d) program (server_with d)
unfolding Crypto.init
both_with d = record {
  up = refl;
  down = refl;
  key_size = refl;
  same_key = refl;
  same_up = refl;
  same_down = refl;
  client_valid = initial-IsValid;
  client_read = refl;
  server_valid = initial-IsValid;
  server_read = refl;
  server_written = refl;
}

pub both : InSession (λ e d. e ≡ d) program client
both = both_with full
