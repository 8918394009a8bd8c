-- ===== src/Transfer/Exchange/Put.antt =====
-- STOR as an exchange: `cmd_stor` of both ends.
use cybersec_proj.Base.{
  length-append, ℕ, ◌+◌, ◌*◌, ◌/◌, ◌<◌, ◌≤◌, ◌≡◌, ◌∙◌, refl, sym, ap, true, false, Bytes, List, [],
  ◌∷◌, ◌++◌, append-nil, some, arith, length, ok, take, take_front, take_all, ltb,
}
use cybersec_proj.Protocol.{buffer_size, parola, ok_status, max_file_size}
use cybersec_proj.Word.{u32_mod}
use cybersec_proj.Openssl.{Openssl, IsSound}
use cybersec_proj.Connection.{Socket}
use cybersec_proj.Connection.Stream.{Stream}
use cybersec_proj.Crypto.Pending.{pending}
use cybersec_proj.Crypto.Channel.{Mark, mark_after, IsMessage, concat, wire, Ready, plaintext}
use cybersec_proj.Text.{from_text}
use cybersec_proj.ClientMain.Upload.{send_file_lem}
use cybersec_proj.ClientMain.Program
use cybersec_proj.ClientMain.Program.{Program, Local, stor_line, basename}
use cybersec_proj.Server
use cybersec_proj.Server.{FileSystem, Client, full_path, status_line}
use cybersec_proj.Server.Accept.{upload_accepted}
use cybersec_proj.Server.RoundStor.{round_stor}
use cybersec_proj.Server.Store.{IsStorage, Wrote}
use cybersec_proj.Transfer.ClientPut.{client_puts}
use cybersec_proj.Transfer.Exchange.{Exchange, Delivers}
use cybersec_proj.Transfer.Exchange.Meet.{up_wire, server_ready}
use cybersec_proj.Crypto.Marks.{Stands, Stands-kept, Drained, Ready-Drained, wire_moved}
use cybersec_proj.Transfer.Joint.{joined, InSession, with_mail, server_mail}

pub stor_line_some : (name : Bytes) (n : ℕ) → 0 < length (stor_line name n)
unfolding stor_line
stor_line_some name n = omega arith

module _ {S C F : Type 0} (os : Socket S) (net : Stream os) (lib : Openssl C)
    {InSync : C → C → Type 0} (sound : IsSound lib InSync) (files : FileSystem F)
    (storage : IsStorage files) where
  open net use {inbox, outbox}

  -- The server's side: one round where the command and the content arrive.
  server_stores :
      {up : Mark C} (c : Client S C F) (d : C) (z : InSync c.link.crypto.ctx_e d) (x : ℕ)
      (name content : Bytes) (g : F) (ps : List Bytes)
      → Ready os net lib sound up c.link (stor_line (x ∷ name) (length content) ∷ ps)
      → c.link.statics.remaining ≡ 0
      → concat ps ≡ content
      → parola (x ∷ name) ≡ true
      → length (stor_line (x ∷ name) (length content)) < buffer_size
      → length content ≤ max_file_size
      → c.link.crypto.sequence_number_o + 2 < u32_mod
      → outbox c.link.sock ≡ []
      → c.os ≡ []
      → files.create c.fs (full_path (x ∷ name)) ≡ some g
      → (c' : Client S C F) × (peer : C) × (z' : InSync peer d) × (Server.round os lib files c
          ≡ ok true c')
        × (outbox c'.link.sock
            ≡ wire sound c.link.crypto.auth_key peer d z' c.link.crypto.sequence_number_o
                (status_line ok_status ∷ []))
        × Stands
            (mark_after sound peer d z' c.link.crypto.sequence_number_o
              (status_line ok_status ∷ []))
            c'.link
        × Drained InSync up c'.link
        × (c'.link.crypto.auth_key ≡ c.link.crypto.auth_key)
        × (c'.os ≡ [])
        × (files.read c'.fs (full_path (x ∷ name)) ≡ some content)
        × Wrote files (full_path (x ∷ name)) c.fs c'.fs
  server_stores c d z x name content g ps ready read whole allowed short small room silent written
        opened =
      let line = stor_line (x ∷ name) (length content) in
      let all : plaintext os net lib sound c.link (line ∷ ps) ≡ line ++ content =
        ap (λ (bs : Bytes). bs ++ (line ++ concat ps)) {x = pending c.link.statics} {y = []}
          (rw read refl)
        ∙ ap (λ (bs : Bytes). line ++ bs) whole in
      let (l', left, rounds, rest, ready', quiet, sender) =
        round_stor os net lib sound files x name content (length content) c (line ∷ ps) ready all
          short allowed (omega (arith, small)) in
      let c2 : Client S C F = record c { link = l'; is = from_text (b'\n' ∷ b'\n' ∷ []) } in
      let z' : InSync l'.crypto.ctx_e d = rw (sender.0) z in
      let (told, c', left', stored, sent, q, o, got, count, split, ready'', sender', empty, wrote) =
        upload_accepted os net lib sound files storage (x ∷ name) (length content) g c2 d z' left
          small opened written (rw (sender.1) room) ready'
          (omega (arith, ap (length {A = ℕ}) rest)) in
      let same : stored ≡ content =
        sym (take_front (length content) stored (plaintext os net lib sound c'.link left') count)
        ∙ ap (take (length content)) (sym split ∙ rest)
        ∙ take_all (length content) content (omega arith) in
      (
        c',
        l'.crypto.ctx_e,
        z',
        rounds ∙ rw q refl,
        o
            ∙ sym (append-nil (outbox told.sock))
            ∙ sent.carries []
            ∙ rw (quiet, silent, sender.1, sender.2) refl,
        Stands-kept {l = told}
            (record { cipher = sent.ended []; number = omega (arith, sent.counted, sender.1) })
            sender',
        Ready-Drained os net lib sound c'.link left' ready'' (
            omega (
              arith,
              count,
              length-append stored (plaintext os net lib sound c'.link left'),
              ap (length {A = ℕ}) split,
              ap (length {A = ℕ}) rest,
            )),
        sender'.2 ∙ sent.keyed ∙ sender.2,
        empty,
        got ∙ ap some same,
        wrote,
      )

  -- The ends stand in one session. The user types `put` with a path whose last part is an allowed name,
  -- the file there is regular, can be read, both times it is opened, and has at most MAX_FILE_SIZE bytes, the command fits a
  -- buffer, the server can open its file and the sequence numbers have room. Then `cmd_stor` of the
  -- client and one round of the server are an exchange, after which the server's file holds exactly the
  -- content of the client's, no other file of the server has changed, nor any local file.
  pub put-Exchange :
      (local : Local F) (deliver : Bytes → S → S) (delivers : Delivers net deliver)
      (p : Program S C F) (c : Client S C F) (a : ℕ) (path : Bytes) (x : ℕ) (name content : Bytes)
      (g : F)
      → InSession InSync p c
      → basename (a ∷ path) ≡ x ∷ name
      → parola (x ∷ name) ≡ true
      → local.stat p.fs (a ∷ path) ≡ true
      → local.files.read p.fs (a ∷ path) ≡ some content
      → local.reopen p.fs (a ∷ path) ≡ some content
      → length content ≤ max_file_size
      → length (stor_line (x ∷ name) (length content)) < buffer_size
      → p.link.crypto.sequence_number_o + 2 * (1 + (length content + 4095) / 4096) < u32_mod
      → c.link.crypto.sequence_number_o + 2 < u32_mod
      → files.create c.fs (full_path (x ∷ name)) ≡ some g
      → (p' : Program S C F) × (c' : Client S C F) × Exchange os net lib InSync files deliver
          (Program.cmd_stor os lib local (a ∷ path))
          true
          p
          c
          p'
          c'
        × (files.read c'.fs (full_path (x ∷ name)) ≡ some content)
        × Wrote files (full_path (x ∷ name)) c.fs c'.fs
        × (p'.fs ≡ p.fs)
        × (p'.link.crypto.sequence_number_o
            ≤ p.link.crypto.sequence_number_o + 2 * (1 + (length content + 4095) / 4096))
        × (c'.link.crypto.sequence_number_o ≡ c.link.crypto.sequence_number_o + 2)
  unfolding Program.cmd_stor Program.check_and_get_file_size
  put-Exchange local deliver delivers p c a path x name content g k named allowed regular found
        again small short room_up room_down opened =
      let line = stor_line (x ∷ name) (length content) in
      let m : IsMessage line = (stor_line_some (x ∷ name) (length content), omega (arith, short)) in
      let (ps, r, ms, whole, count) = send_file_lem os lib content in
      let up = up_wire os net lib sound deliver delivers p c k (line ∷ ps) in
      let ready =
        server_ready os net lib sound deliver delivers p c k (line ∷ ps) (m, ms)
          (omega (arith, room_up, count)) in
      let (c', peer, z, rounds, on_wire, stands, drained, keyed, empty, stored, wrote) =
        server_stores (server_mail deliver c up) p.link.crypto.ctx_d k.down x name content g ps
          ready k.server_read whole allowed short small room_down (delivers.fresh _ _)
          k.server_written opened in
      let down = outbox c'.link.sock in
      let (p', q, sent, stands', drained', key, kept) =
        client_puts os net lib sound local (with_mail deliver p down) c.link.crypto.ctx_d peer k.up
          z (a ∷ path) (x ∷ name) content ps again r ms k.key_size m (omega (arith, room_up, count))
          (omega (arith, room_down, k.same_down)) k.client_valid k.client_read (delivers.fresh _ _)
          (delivers.arrives _ _
            ∙ on_wire
            ∙ wire_moved sound peer p.link.crypto.ctx_d z (status_line ok_status ∷ []) k.same_key
                (sym k.same_down)) in
      let fits : ltb max_file_size (length content) ≡ false = ground arith in
      (
        p',
        c',
        record {
          up = up;
          down = down;
          client = rw (regular, found, fits, named) q;
          server = rounds;
          client_sends = sent;
          server_sends = refl;
          session =
              joined InSync p' c' stands' drained
                (record {
                  cipher = stands.cipher;
                  number = omega (arith, stands.number, k.same_down);
                })
                drained' (rw key (k.key_size)) (keyed ∙ k.same_key ∙ sym key) empty;
        },
        stored,
        wrote,
        kept,
        omega (arith, stands'.number, count),
        stands.number,
      )
