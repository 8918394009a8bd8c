-- ===== src/Tests/Exchanges.antt =====
-- Examples for single exchanges.
use cybersec_proj.Base.{
  bytes_eq, ◌∷◌, ℕ, ◌≤◌, ◌≡◌, refl, true, false, [], ◌++◌, arith, codes, none, some,
}
use cybersec_proj.Connection.Pipe.{Pipe, pipe, pipe_stream}
use cybersec_proj.Openssl.Toy.{toy, toy-IsSound}
use cybersec_proj.Protocol.{parola}
use cybersec_proj.Text.{decimal}
use cybersec_proj.Crypto
use cybersec_proj.ClientMain.Program
use cybersec_proj.ClientMain.Program.{
  Program, client_root, retr_line, stor_line, basename, has_zero,
}
use cybersec_proj.Server.{FileSystem, Client, full_path}
use cybersec_proj.Server.Store.{Wrote}
use cybersec_proj.Transfer.Exchange.{Exchange}
use cybersec_proj.Transfer.Exchange.Get.{get-Exchange}
use cybersec_proj.Transfer.Exchange.List.{list-Exchange}
use cybersec_proj.Transfer.Exchange.Put.{put-Exchange}
use cybersec_proj.Transfer.Exchange.Status.{
  dele-Exchange, quit-Exchange, missing-Exchange, closed-Exchange,
}
use cybersec_proj.Tests.Data.{hello}
use cybersec_proj.Tests.Disk.{Disk, disk, disk-IsStorage, set}
use cybersec_proj.Tests.Ends.{
  name, full, client, server_with, machine, program, deliver, deliver-Delivers, both, both_with,
}

-- A server without any file, and a disk on which no file can be opened for writing.
abbrev bare : Disk
bare = record { names = []; content = λ p. none }

abbrev locked : FileSystem Disk
locked = record disk { create = λ d path. none }

get-Exchange_example :
    (p' : Program Pipe ℕ Disk) × (c' : Client Pipe ℕ Disk) × Exchange pipe pipe_stream toy
      (λ e d. e ≡ d)
      disk
      deliver
      (Program.cmd_retr pipe toy machine name)
      true
      program
      client
      p'
      c'
    × (p'.fs.content (client_root ++ name) ≡ some hello)
    × Wrote disk (client_root ++ name) full p'.fs
    × (c'.fs ≡ full)
    × (p'.link.crypto.sequence_number_o ≡ 2)
    × (c'.link.crypto.sequence_number_o ≤ 6)
unfolding Crypto.init parola retr_line
get-Exchange_example =
    get-Exchange pipe pipe_stream toy toy-IsSound disk machine disk-IsStorage deliver
      deliver-Delivers program client b'n' (codes "otes.txt") hello
      (set full (client_root ++ name) (some [])) both refl (omega arith) (omega arith) (omega arith)
      refl refl refl

put-Exchange_example :
    (p' : Program Pipe ℕ Disk) × (c' : Client Pipe ℕ Disk) × Exchange pipe pipe_stream toy
      (λ e d. e ≡ d)
      disk
      deliver
      (Program.cmd_stor pipe toy machine (codes "docs/notes.txt"))
      true
      program
      client
      p'
      c'
    × (c'.fs.content (full_path name) ≡ some hello)
    × Wrote disk (full_path name) full c'.fs
    × (p'.fs ≡ full)
    × (p'.link.crypto.sequence_number_o ≤ 4)
    × (c'.link.crypto.sequence_number_o ≡ 2)
unfolding Crypto.init parola stor_line decimal basename Program.basename_loop
put-Exchange_example =
    put-Exchange pipe pipe_stream toy toy-IsSound disk disk-IsStorage machine deliver
      deliver-Delivers program client b'd' (codes "ocs/notes.txt") b'n' (codes "otes.txt") hello
      (set full (full_path name) (some [])) both refl refl refl refl refl (omega arith)
      (omega arith) (omega arith) (omega arith) refl

dele-Exchange_example :
    (p' : Program Pipe ℕ Disk) × (c' : Client Pipe ℕ Disk) × Exchange pipe pipe_stream toy
      (λ e d. e ≡ d)
      disk
      deliver
      (Program.cmd_dele pipe toy machine name)
      true
      program
      client
      p'
      c'
    × (p'.fs ≡ full)
    × (c'.fs ≡ set full (full_path name) none)
    × (p'.link.crypto.sequence_number_o ≡ 2)
    × (c'.link.crypto.sequence_number_o ≡ 2)
unfolding Crypto.init parola
dele-Exchange_example =
    dele-Exchange pipe pipe_stream toy toy-IsSound disk machine deliver deliver-Delivers program
      client b'n' (codes "otes.txt") both refl (omega arith) (omega arith) (omega arith)

quit-Exchange_example :
    (p' : Program Pipe ℕ Disk) × (c' : Client Pipe ℕ Disk) × Exchange pipe pipe_stream toy
      (λ e d. e ≡ d)
      disk
      deliver
      (Program.cmd_quit pipe toy machine)
      false
      program
      client
      p'
      c'
    × (p'.fs ≡ full)
    × (c'.fs ≡ full)
    × (p'.link.crypto.sequence_number_o ≡ 2)
    × (c'.link.crypto.sequence_number_o ≡ 2)
unfolding Crypto.init
quit-Exchange_example =
    quit-Exchange pipe pipe_stream toy toy-IsSound disk machine deliver deliver-Delivers program
      client both (omega arith) (omega arith)

missing-Exchange_example :
    (p' : Program Pipe ℕ Disk) × (c' : Client Pipe ℕ Disk) × Exchange pipe pipe_stream toy
      (λ e d. e ≡ d)
      disk
      deliver
      (Program.cmd_retr pipe toy machine name)
      true
      program
      (server_with bare)
      p'
      c'
    × (p'.fs ≡ full)
    × (c'.fs ≡ bare)
    × (p'.link.crypto.sequence_number_o ≡ 2)
    × (c'.link.crypto.sequence_number_o ≡ 2)
unfolding Crypto.init parola retr_line
missing-Exchange_example =
    missing-Exchange pipe pipe_stream toy toy-IsSound disk machine deliver deliver-Delivers program
      (server_with bare) b'n' (codes "otes.txt") (both_with bare) refl (omega arith) (omega arith)
      (omega arith) refl

closed-Exchange_example :
    (p' : Program Pipe ℕ Disk) × (c' : Client Pipe ℕ Disk) × Exchange pipe pipe_stream toy
      (λ e d. e ≡ d)
      locked
      deliver
      (Program.cmd_stor pipe toy machine (codes "docs/notes.txt"))
      true
      program
      client
      p'
      c'
    × (p'.fs ≡ full)
    × (c'.fs ≡ full)
    × (p'.link.crypto.sequence_number_o ≡ 2)
    × (c'.link.crypto.sequence_number_o ≡ 2)
unfolding Crypto.init parola stor_line decimal basename Program.basename_loop
closed-Exchange_example =
    closed-Exchange pipe pipe_stream toy toy-IsSound locked machine deliver deliver-Delivers program
      client b'd' (codes "ocs/notes.txt") b'n' (codes "otes.txt") hello both refl refl refl refl
      (omega arith) (omega arith) (omega arith) (omega arith) refl

-- The server's directory has the two dots and one file.
abbrev listed : Disk
listed = record full { names = codes "." ∷ name ∷ codes ".." ∷ [] }

list-Exchange_example :
    (p' : Program Pipe ℕ Disk) × (c' : Client Pipe ℕ Disk) × Exchange pipe pipe_stream toy
      (λ e d. e ≡ d)
      disk
      deliver
      (Program.cmd_remote_list pipe toy machine)
      true
      program
      (server_with listed)
      p'
      c'
    × (p'.out ≡ codes "notes.txt" ++ (b'\n' ∷ []))
    × (p'.fs ≡ full)
    × (c'.fs ≡ listed)
unfolding Crypto.init bytes_eq has_zero
list-Exchange_example =
    list-Exchange pipe pipe_stream toy toy-IsSound disk machine deliver deliver-Delivers program
      (server_with listed) (codes "." ∷ name ∷ codes ".." ∷ []) (both_with listed) refl
      (((refl, (refl, (refl, (refl, (refl, (refl, (refl, (refl, (refl, tt))))))))), refl), tt)
      (omega arith) (omega arith) (omega arith)
