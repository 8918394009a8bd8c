-- ===== src/Transfer/Put.antt =====
-- The command `put` from end to end, in terms of what is sent.
use cybersec_proj.Base.{ℕ, ◌+◌, ◌*◌, ◌/◌, ◌<◌, ◌≤◌, ◌≡◌, true, Bytes, [], ◌∷◌, some, length, ok}
use cybersec_proj.Protocol.{buffer_size, parola, max_file_size}
use cybersec_proj.Word.{u32_mod}
use cybersec_proj.Openssl.{Openssl, IsSound}
use cybersec_proj.Connection.{Socket}
use cybersec_proj.Connection.Stream.{Stream}
use cybersec_proj.ClientMain.Program
use cybersec_proj.ClientMain.Program.{Program, Local, stor_line, basename}
use cybersec_proj.Server
use cybersec_proj.Server.{FileSystem, Client, full_path}
use cybersec_proj.Server.Store.{IsStorage}
use cybersec_proj.Transfer.Joint.{InSession, with_mail, server_mail}
use cybersec_proj.Transfer.Exchange.Put.{put-Exchange}

module _ {S C F : Type 0} (os : Socket S) (net : Stream os) (lib : Openssl C)
    {InSync : C → C → Type 0} (sound : IsSound lib InSync) (files : FileSystem F)
    (storage : IsStorage files) where
  open net use {inbox, outbox}

  -- Both programs stand in one session, with nothing unread and nothing unsent, and `deliver` puts bytes
  -- on their way to an end that has sent nothing. The user types `put` with a path whose last part is an
  -- allowed name, the file there is regular, can be read, both times it is opened, and has at most MAX_FILE_SIZE bytes, the command
  -- fits a buffer, the sequence numbers have room and the server can open its file. Then there are bytes
  -- for either direction such that `cmd_stor` of the client, when the server's arrive, sends its own and
  -- returns, one round of `execute` of the server, when the client's arrive, sends its own and goes on,
  -- and the server's file then holds exactly the content of the client's.
  pub put_file :
      (local : Local F) (deliver : Bytes → S → S)
      (deliver_in : (bs : Bytes) (s : S) → inbox (deliver bs s) ≡ bs)
      (deliver_out : (bs : Bytes) (s : S) → outbox (deliver bs s) ≡ []) (p : Program S C F)
      (c : Client S C F) (a : ℕ) (path : Bytes) (x : ℕ) (name content : Bytes) (g : F)
      → InSession InSync p c
      → basename (a ∷ path) ≡ x ∷ name
      → parola (x ∷ name) ≡ true
      → local.stat p.fs (a ∷ path) ≡ true
      → local.files.read p.fs (a ∷ path) ≡ some content
      → local.reopen p.fs (a ∷ path) ≡ some content
      → length content ≤ max_file_size
      → length (stor_line (x ∷ name) (length content)) < buffer_size
      → p.link.crypto.sequence_number_o + 2 * (1 + (length content + 4095) / 4096) < u32_mod
      → c.link.crypto.sequence_number_o + 2 < u32_mod
      → files.create c.fs (full_path (x ∷ name)) ≡ some g
      → (up down : Bytes) × (p' : Program S C F) × (c' : Client S C F) × (Program.cmd_stor os lib
            local
            (a ∷ path)
            (with_mail deliver p down)
          ≡ ok tt p')
        × (Server.round os lib files (server_mail deliver c up) ≡ ok true c')
        × (outbox p'.link.sock ≡ up)
        × (outbox c'.link.sock ≡ down)
        × (files.read c'.fs (full_path (x ∷ name)) ≡ some content)
  put_file local deliver deliver_in deliver_out p c a path x name content g k named allowed regular
        found again small short room_up room_down opened =
      let (p', c', e, stored, _, _, _, _) =
        put-Exchange os net lib sound files storage local deliver
          (record { arrives = deliver_in; fresh = deliver_out }) p c a path x name content g k named
          allowed regular found again small short room_up room_down opened in
      (e.up, e.down, p', c', e.client, e.server, e.client_sends, e.server_sends, stored)
