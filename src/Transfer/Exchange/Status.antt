-- ===== src/Transfer/Exchange/Status.antt =====
-- The commands that the server answers by one status: DELE, QUIT, and RETR and STOR of a file that the
-- server cannot open.
use cybersec_proj.Base.{
  ℕ, ◌+◌, ◌<◌, ◌≤◌, ◌≡◌, refl, sym, ap, fun_ext, bind-ok, ◌>>=◌, true, false, Bytes, [], ◌∷◌, arith,
  length, none, some, bind, return, M, if◌then◌else◌, ltb, gets,
}
use cybersec_proj.Protocol.{buffer_size, parola, ok_status, bad_file, max_file_size}
use cybersec_proj.Word.{u32_mod}
use cybersec_proj.Openssl.{Openssl, IsSound}
use cybersec_proj.Connection.{Socket}
use cybersec_proj.Connection.Stream.{Stream}
use cybersec_proj.Text.{from_text}
use cybersec_proj.ClientMain
use cybersec_proj.ClientMain.Program
use cybersec_proj.ClientMain.Program.{Program, Local, is_status, retr_line, stor_line, basename}
use cybersec_proj.Server.{FileSystem, Client, full_path, status_line}
use cybersec_proj.Server.Round.{retr_line-IsReply}
use cybersec_proj.Server.RoundStor.{stor_line-IsReply}
use cybersec_proj.Server.RoundStatus.{
  dele_line, quit_line, dele_line-IsReply, quit_line-IsReply, dele_status, dele_status_small,
  dele_obeyed, quit_obeyed, retr_missing, stor_closed,
}
use cybersec_proj.Transfer.ClientPut.{status_line_read}
use cybersec_proj.Transfer.Joint.{InSession}
use cybersec_proj.Transfer.Exchange.{Exchange, Delivers}
use cybersec_proj.Transfer.Exchange.Get.{retr_line_some}
use cybersec_proj.Transfer.Exchange.Put.{stor_line_some}
use cybersec_proj.Transfer.Exchange.Tell.{told-Exchange}

-- `cmd_stor` once the answer is read.
abbrev stored :
    {S C F : Type 0} → Socket S → Openssl C → Local F → Bytes → Bytes → M (Program S C F) (Unit {0})
stored os lib local path content = do
  response ← Program.read_number
  if is_status response ok_status
      then (do
        file ← gets λ p. local.reopen p.fs path
        Program.on_link (ClientMain.send_file os lib file (length content)))
      else return tt

stor_put :
    {S C F : Type 0} (os : Socket S) (lib : Openssl C) (local : Local F) (a : ℕ)
    (path name content : Bytes) (s : Program S C F)
    → basename (a ∷ path) ≡ name
    → local.stat s.fs (a ∷ path) ≡ true
    → local.files.read s.fs (a ∷ path) ≡ some content
    → ltb max_file_size (length content) ≡ false
    → Program.cmd_stor os lib local (a ∷ path) s
      ≡ bind (Program.send_cmd os lib local (stor_line name (length content)) s) (λ _ s1.
        bind
          (Program.receive_response os lib local s1)
          (λ _ s2. stored os lib local (a ∷ path) content s2))
unfolding Program.cmd_stor Program.check_and_get_file_size Program.put
stor_put os lib local a path name content s named regular found fits =
    rw (regular, found, fits, named) refl

module _ {S C F : Type 0} (os : Socket S) (net : Stream os) (lib : Openssl C)
    {InSync : C → C → Type 0} (sound : IsSound lib InSync) (files : FileSystem F) where
  -- The ends stand in one session, the name is allowed, the command fits a buffer and the sequence numbers
  -- have room. Then `cmd_dele` of the client and one round of the server are an exchange, in which the
  -- server removes that file, if its operating system does, and no local file changes.
  pub dele-Exchange :
      (local : Local F) (deliver : Bytes → S → S) (delivers : Delivers net deliver)
      (p : Program S C F) (c : Client S C F) (x : ℕ) (name : Bytes)
      → InSession InSync p c
      → parola (x ∷ name) ≡ true
      → length (dele_line (x ∷ name)) < buffer_size
      → p.link.crypto.sequence_number_o + 2 < u32_mod
      → c.link.crypto.sequence_number_o + 2 < u32_mod
      → (p' : Program S C F) × (c' : Client S C F) × Exchange os net lib InSync files deliver
          (Program.cmd_dele os lib local (x ∷ name))
          true
          p
          c
          p'
          c'
        × (p'.fs ≡ p.fs)
        × (c'.fs ≡ (files.remove c.fs (full_path (x ∷ name))).1)
        × (p'.link.crypto.sequence_number_o ≡ p.link.crypto.sequence_number_o + 2)
        × (c'.link.crypto.sequence_number_o ≡ c.link.crypto.sequence_number_o + 2)
  unfolding Program.cmd_dele Program.read_number
  dele-Exchange local deliver delivers p c x name k allowed short room_up room_down =
      let done = (files.remove c.fs (full_path (x ∷ name))).0 in
      told-Exchange os net lib sound files local deliver delivers p c (dele_line (x ∷ name))
        (dele_status done) true ((files.remove c.fs (full_path (x ∷ name))).1) _ _
        (from_text (b'\n' ∷ b'\n' ∷ [])) k (omega arith) (dele_line-IsReply (x ∷ name) allowed)
        short (dele_status_small done) room_up room_down (λ s same. refl)
        (λ c1 same. rw (sym same) (dele_obeyed os lib files x name c1 allowed))
        (λ l. rw (status_line_read (dele_status done) (dele_status_small done)) refl)

  -- The ends stand in one session and the sequence numbers have room. Then `cmd_quit` of the client and
  -- one round of the server are an exchange that changes no file, after which the server's loop ends.
  pub quit-Exchange :
      (local : Local F) (deliver : Bytes → S → S) (delivers : Delivers net deliver)
      (p : Program S C F) (c : Client S C F)
      → InSession InSync p c
      → p.link.crypto.sequence_number_o + 2 < u32_mod
      → c.link.crypto.sequence_number_o + 2 < u32_mod
      → (p' : Program S C F) × (c' : Client S C F) × Exchange os net lib InSync files deliver
          (Program.cmd_quit os lib local)
          false
          p
          c
          p'
          c'
        × (p'.fs ≡ p.fs)
        × (c'.fs ≡ c.fs)
        × (p'.link.crypto.sequence_number_o ≡ p.link.crypto.sequence_number_o + 2)
        × (c'.link.crypto.sequence_number_o ≡ c.link.crypto.sequence_number_o + 2)
  unfolding Program.cmd_quit
  quit-Exchange local deliver delivers p c k room_up room_down =
      told-Exchange os net lib sound files local deliver delivers p c quit_line ok_status false c.fs
        (Program.cmd_quit os lib local) (return tt) (from_text (status_line ok_status)) k
        (omega arith) quit_line-IsReply (omega arith) (omega arith) room_up room_down
        (λ s same.
          ap (bind (Program.send_cmd os lib local quit_line s)) (
            fun_ext
              (λ _. fun_ext (λ s1. sym (bind-ok (Program.receive_response os lib local s1))))))
        (λ c1 same. rw (sym same) (quit_obeyed os lib files c1)) (λ l. refl)

  -- The ends stand in one session, the name is allowed, the server cannot open that path, the command fits
  -- a buffer and the sequence numbers have room. Then `cmd_retr` of the client and one round of the server
  -- are an exchange that changes no file of either.
  pub missing-Exchange :
      (local : Local F) (deliver : Bytes → S → S) (delivers : Delivers net deliver)
      (p : Program S C F) (c : Client S C F) (x : ℕ) (name : Bytes)
      → InSession InSync p c
      → parola (x ∷ name) ≡ true
      → length (retr_line (x ∷ name)) < buffer_size
      → p.link.crypto.sequence_number_o + 2 < u32_mod
      → c.link.crypto.sequence_number_o + 2 < u32_mod
      → files.read c.fs (full_path (x ∷ name)) ≡ none
      → (p' : Program S C F) × (c' : Client S C F) × Exchange os net lib InSync files deliver
          (Program.cmd_retr os lib local (x ∷ name))
          true
          p
          c
          p'
          c'
        × (p'.fs ≡ p.fs)
        × (c'.fs ≡ c.fs)
        × (p'.link.crypto.sequence_number_o ≡ p.link.crypto.sequence_number_o + 2)
        × (c'.link.crypto.sequence_number_o ≡ c.link.crypto.sequence_number_o + 2)
  unfolding Program.cmd_retr Program.read_number Program.recv_file
  missing-Exchange local deliver delivers p c x name k allowed short room_up room_down missing =
      told-Exchange os net lib sound files local deliver delivers p c (retr_line (x ∷ name))
        bad_file true c.fs _ (Program.recv_file os lib local (x ∷ name))
        (from_text (b'\n' ∷ b'\n' ∷ [])) k (retr_line_some x name)
        (retr_line-IsReply (x ∷ name) allowed) short (omega arith) room_up room_down
        (λ s same. refl)
        (λ c1 same. rw (sym same) (retr_missing os lib files x name c1 allowed (rw same missing)))
        (λ l. rw (status_line_read bad_file (omega arith)) refl)

  -- The ends stand in one session. The user types `put` with a path whose last part is an allowed name, the
  -- file there is regular, can be read and has at most MAX_FILE_SIZE bytes, the command fits a buffer, the
  -- sequence numbers have room, and the server cannot open its file. Then `cmd_stor` of the client sends
  -- the command alone; it and one round of the server are an exchange that changes no file of either.
  pub closed-Exchange :
      (local : Local F) (deliver : Bytes → S → S) (delivers : Delivers net deliver)
      (p : Program S C F) (c : Client S C F) (a : ℕ) (path : Bytes) (x : ℕ) (name content : Bytes)
      → InSession InSync p c
      → basename (a ∷ path) ≡ x ∷ name
      → parola (x ∷ name) ≡ true
      → local.stat p.fs (a ∷ path) ≡ true
      → local.files.read p.fs (a ∷ path) ≡ some content
      → length content ≤ max_file_size
      → length (stor_line (x ∷ name) (length content)) < buffer_size
      → p.link.crypto.sequence_number_o + 2 < u32_mod
      → c.link.crypto.sequence_number_o + 2 < u32_mod
      → files.create c.fs (full_path (x ∷ name)) ≡ none
      → (p' : Program S C F) × (c' : Client S C F) × Exchange os net lib InSync files deliver
          (Program.cmd_stor os lib local (a ∷ path))
          true
          p
          c
          p'
          c'
        × (p'.fs ≡ p.fs)
        × (c'.fs ≡ c.fs)
        × (p'.link.crypto.sequence_number_o ≡ p.link.crypto.sequence_number_o + 2)
        × (c'.link.crypto.sequence_number_o ≡ c.link.crypto.sequence_number_o + 2)
  unfolding Program.read_number
  closed-Exchange local deliver delivers p c a path x name content k named allowed regular found
        small short room_up room_down closed =
      let n = length content in
      let fits : ltb max_file_size (length content) ≡ false = ground arith in
      told-Exchange os net lib sound files local deliver delivers p c (stor_line (x ∷ name) n)
        bad_file true c.fs (Program.cmd_stor os lib local (a ∷ path))
        (stored os lib local (a ∷ path) content) (from_text (b'\n' ∷ b'\n' ∷ [])) k
        (stor_line_some (x ∷ name) n) (stor_line-IsReply (x ∷ name) n allowed) short (omega arith)
        room_up room_down
        (λ s same.
          stor_put os lib local a path (x ∷ name) content s named (rw same regular) (rw same found)
            fits)
        (λ c1 same.
          rw (sym same) (stor_closed os lib files x name n c1 allowed small (rw same closed)))
        (λ l. rw (status_line_read bad_file (omega arith)) refl)
