-- ===== src/Transfer/Exchange/Get.antt =====
-- RETR as an exchange: `cmd_retr` of both ends.
use cybersec_proj.Base.Int.{pos}
use cybersec_proj.Base.{
  ℕ, ◌+◌, ◌*◌, ◌/◌, ◌<◌, ◌≤◌, ◌≡◌, ◌∙◌, refl, sym, ap, true, Bytes, List, [], ◌∷◌, ◌++◌, append-nil,
  some, arith, length, ok,
}
use cybersec_proj.Protocol.{buffer_size, parola}
use cybersec_proj.Word.{u32_mod}
use cybersec_proj.Openssl.{Openssl, IsSound}
use cybersec_proj.Connection.{Socket}
use cybersec_proj.Connection.Stream.{Stream}
use cybersec_proj.Crypto.Pending.{pending}
use cybersec_proj.Crypto.Channel.{Mark, mark_after, IsMessage, All, concat, wire, Ready}
use cybersec_proj.Crypto.Marks.{
  Stands, Stands-kept, Drained, Drained-kept, Ready-Drained, wire_moved,
}
use cybersec_proj.Text.{from_text}
use cybersec_proj.ClientMain.Program
use cybersec_proj.ClientMain.Program.{Program, Local, client_root, retr_line}
use cybersec_proj.ClientMain.Replies.{size_line-IsReply}
use cybersec_proj.Server
use cybersec_proj.Server.{FileSystem, Client, full_path, size_line}
use cybersec_proj.Server.Retrieve.{send_content_lem, length-size_line}
use cybersec_proj.Server.Round.{round_retr}
use cybersec_proj.Server.Store.{IsStorage, Wrote}
use cybersec_proj.Transfer.Ask.{client_asks, Asked-then}
use cybersec_proj.Transfer.Download.{recv_file_lem}
use cybersec_proj.Transfer.Joint.{InSession, with_mail, server_mail, joined}
use cybersec_proj.Transfer.Exchange.{Exchange, Delivers}
use cybersec_proj.Transfer.Exchange.Meet.{up_wire, server_ready, Sent-wire, Sent-cipher}

pub retr_line_some : (x : ℕ) (name : Bytes) → 0 < length (retr_line (x ∷ name))
unfolding retr_line
retr_line_some x name = omega arith

module _ {S C F : Type 0} (os : Socket S) (net : Stream os) (lib : Openssl C)
    {InSync : C → C → Type 0} (sound : IsSound lib InSync) (files : FileSystem F) where
  open net use {inbox, outbox}

  -- The server's side: one round where the command arrives, `d` being the cipher of the client.
  server_retrieves :
      {up : Mark C} (c : Client S C F) (d : C) (z : InSync c.link.crypto.ctx_e d) (x : ℕ)
      (name content : Bytes)
      → Ready os net lib sound up c.link (retr_line (x ∷ name) ∷ [])
      → c.link.statics.remaining ≡ 0
      → parola (x ∷ name) ≡ true
      → length (retr_line (x ∷ name)) < buffer_size
      → c.link.crypto.sequence_number_o + 2 * (2 + (length content + 4095) / 4096) < u32_mod
      → outbox c.link.sock ≡ []
      → c.os ≡ []
      → files.read c.fs (full_path (x ∷ name)) ≡ some content
      → files.tell c.fs (full_path (x ∷ name)) ≡ pos (length content)
      → (c' : Client S C F) × (sent : List Bytes) × (peer : C) × (z' : InSync peer d)
        × (Server.round os lib files c ≡ ok true c')
        × (outbox c'.link.sock
            ≡ wire sound c.link.crypto.auth_key peer d z' c.link.crypto.sequence_number_o sent)
        × Stands (mark_after sound peer d z' c.link.crypto.sequence_number_o sent) c'.link
        × Drained InSync up c'.link
        × (c'.link.crypto.auth_key ≡ c.link.crypto.auth_key)
        × All IsMessage sent
        × (concat sent ≡ size_line (length content) ++ content)
        × (length sent ≤ 2 + (length content + 4095) / 4096)
        × (c'.os ≡ [])
        × (c'.fs ≡ c.fs)
  server_retrieves c d z x name content ready read allowed short room silent written found sized =
      let line = retr_line (x ∷ name) in
      let none_left : pending c.link.statics ≡ [] = rw read refl in
      let (l1, left, rounds, rest, ready', quiet, sender) =
        round_retr os net lib sound files x name content [] c (line ∷ []) ready
          (ap (λ (bs : Bytes). bs ++ (line ++ [])) none_left) short allowed found sized in
      let c2 : Client S C F = record c { link = l1; is = from_text (b'\n' ∷ b'\n' ∷ []) } in
      let z' : InSync l1.crypto.ctx_e d = rw (sender.0) z in
      let (c', sent, q, s, whole, count, empty, kept) =
        send_content_lem os net lib sound files (length content) content c2 d z' written
          (omega (arith, room)) (rw (sender.2) (ready.keyed)) (rw (sender.1) room) in
      let drained = Ready-Drained os net lib sound l1 left ready' (ap (length {A = ℕ}) rest) in
      (
        c',
        sent,
        l1.crypto.ctx_e,
        z',
        rounds ∙ rw q refl,
        Sent-wire os net lib sound files l1 c'.link d z' sent s (quiet ∙ silent)
            ∙ wire_moved sound l1.crypto.ctx_e d z' sent (sender.2) (sender.1),
        record {
          cipher = Sent-cipher os net lib sound files l1 c'.link d z' sent s;
          number = omega (arith, s.counted, sender.1);
        },
        Drained-kept {l = l1} drained s.receiver,
        s.keyed ∙ sender.2,
        s.messages,
        whole,
        count,
        empty,
        kept,
      )

  -- The ends stand in one session, the name is allowed, the command fits a buffer, the server can open
  -- a regular file of that name, the client can open its own, and the sequence numbers have room. Then `cmd_retr` of the
  -- client and one round of the server are an exchange, after which the client's file holds exactly
  -- the content of the server's, no other local file has changed, nor any file of the server.
  pub get-Exchange :
      (local : Local F) (storage : IsStorage local.files) (deliver : Bytes → S → S)
      (delivers : Delivers net deliver) (p : Program S C F) (c : Client S C F) (x : ℕ)
      (name content : Bytes) (g : F)
      → InSession InSync p c
      → parola (x ∷ name) ≡ true
      → length (retr_line (x ∷ name)) < buffer_size
      → p.link.crypto.sequence_number_o + 2 < u32_mod
      → c.link.crypto.sequence_number_o + 2 * (2 + (length content + 4095) / 4096) < u32_mod
      → files.read c.fs (full_path (x ∷ name)) ≡ some content
      → files.tell c.fs (full_path (x ∷ name)) ≡ pos (length content)
      → local.files.create p.fs (client_root ++ (x ∷ name)) ≡ some g
      → (p' : Program S C F) × (c' : Client S C F) × Exchange os net lib InSync files deliver
          (Program.cmd_retr os lib local (x ∷ name))
          true
          p
          c
          p'
          c'
        × (local.files.read p'.fs (client_root ++ (x ∷ name)) ≡ some content)
        × Wrote local.files (client_root ++ (x ∷ name)) p.fs p'.fs
        × (c'.fs ≡ c.fs)
        × (p'.link.crypto.sequence_number_o ≡ p.link.crypto.sequence_number_o + 2)
        × (c'.link.crypto.sequence_number_o
            ≤ c.link.crypto.sequence_number_o + 2 * (2 + (length content + 4095) / 4096))
  unfolding Program.cmd_retr
  get-Exchange local storage deliver delivers p c x name content g k allowed short room_up room_down
        found sized opened =
      let line = retr_line (x ∷ name) in
      let m : IsMessage line = (retr_line_some x name, omega (arith, short)) in
      let up = up_wire os net lib sound deliver delivers p c k (line ∷ []) in
      let ready =
        server_ready os net lib sound deliver delivers p c k (line ∷ []) (m, tt) room_up in
      let (
        c', sent, peer, z, rounds, on_wire, stands, drained, keyed, messages, whole, count, empty,
        kept,
      ) =
        server_retrieves (server_mail deliver c up) p.link.crypto.ctx_d k.down x name content ready
          k.server_read allowed short room_down (delivers.fresh _ _) k.server_written found sized in
      let down = outbox c'.link.sock in
      let a =
        client_asks os net lib sound local (with_mail deliver p down) c.link.crypto.ctx_d peer k.up
          z line (size_line (length content)) content sent m k.key_size room_up
          (omega (arith, room_down, count, k.same_down)) k.client_valid k.client_read
          (delivers.fresh _ _)
          (delivers.arrives _ _
            ∙ on_wire
            ∙ wire_moved sound peer p.link.crypto.ctx_d z sent k.same_key (sym k.same_down))
          messages whole (size_line-IsReply (length content))
          (omega (arith, (length-size_line (length content) (omega arith)).1)) in
      let (p', q, stored, silent, left, ready', none_left, sender, wrote) =
        recv_file_lem os net lib sound local storage
          (record (with_mail deliver p down) { link = a.link }) (x ∷ name) content [] g a.left
          a.ready (a.unread ∙ sym (append-nil content)) (omega arith) opened in
      let key : p'.link.crypto.auth_key ≡ p.link.crypto.auth_key = sender.2 ∙ a.keyed in
      (
        p',
        c',
        record {
          up = up;
          down = down;
          client = Asked-then os net lib sound local a _ q;
          server = rounds;
          client_sends = silent ∙ a.sends;
          server_sends = refl;
          session =
              joined InSync p' c' (Stands-kept {l = a.link} a.stands sender) drained
                (record {
                  cipher = stands.cipher;
                  number = omega (arith, stands.number, k.same_down);
                })
                (Ready-Drained os net lib sound p'.link left ready' none_left) (rw key (k.key_size))
                (keyed ∙ k.same_key ∙ sym key) empty;
        },
        stored,
        wrote,
        kept,
        sender.1 ∙ a.stands.number,
        omega (arith, stands.number, count),
      )
