-- ===== src/Transfer/Get.antt =====
-- The command `get` from end to end: the request, the server's round, the reply and the content.
use cybersec_proj.Base.Int.{pos}
use cybersec_proj.Base.{
  ℕ, ◌+◌, ◌*◌, ◌/◌, ◌%◌, ◌<◌, ◌≤◌, ◌≡◌, ◌∙◌, refl, sym, ap, true, false, Bytes, [], ◌∷◌, ◌++◌,
  append-nil, some, arith, length, ok, ◌>>◌, ◌==◌,
}
use cybersec_proj.Protocol.{hmac_len, buffer_size, parola}
use cybersec_proj.Word.{u32_mod}
use cybersec_proj.Openssl.{Openssl, IsSound}
use cybersec_proj.Connection.{Socket}
use cybersec_proj.Connection.Stream.{Stream}
use cybersec_proj.Crypto.{Link}
use cybersec_proj.Crypto.Pending.{pending}
use cybersec_proj.Crypto.Wire.{send_frame, after_send}
use cybersec_proj.Crypto.Channel.{mark_after, wire, Ready}
use cybersec_proj.Text.{from_text}
use cybersec_proj.Server
use cybersec_proj.Server.{FileSystem, Client, full_path}
use cybersec_proj.Server.Retrieve.{send_content_lem}
use cybersec_proj.Server.Round.{round_retr}
use cybersec_proj.Server.Store.{IsStorage}
use cybersec_proj.ClientMain.Program
use cybersec_proj.ClientMain.Program.{Program, Local, client_root, retr_line}
use cybersec_proj.Transfer.Joint.{InSession, with_mail, server_mail}
use cybersec_proj.Transfer.Download.{download_stored}

line_some : (x : ℕ) (name : Bytes) → 0 < length (retr_line (x ∷ name))
unfolding retr_line
line_some x name = omega arith

module _ {S C F : Type 0} (os : Socket S) (net : Stream os) (lib : Openssl C)
    {InSync : C → C → Type 0} (sound : IsSound lib InSync) (local : Local F)
    (storage : IsStorage local.files) (files : FileSystem F) (deliver : Bytes → S → S) where
  open net use {inbox, outbox}

  send_cmd_lem :
      (p : Program S C F) (d : C) (y : InSync p.link.crypto.ctx_e d) (line : Bytes)
      → 0 < length line
      → length line ≤ buffer_size
      → length p.link.crypto.auth_key ≡ hmac_len
      → p.link.crypto.sequence_number_o + 2 < u32_mod
      → outbox p.link.sock ≡ []
      → (e' : C) × (s' : S) × (Program.send_cmd os lib local line p
          ≡ ok tt (record p { link = after_send p.link e' s' }))
        × (outbox s'
            ≡ wire sound p.link.crypto.auth_key p.link.crypto.ctx_e d y
                p.link.crypto.sequence_number_o
                (line ∷ []))
  unfolding Program.send_cmd
  send_cmd_lem p d y line h k key room silent =
      let (x, e', d', enc, dec, same, y') = sound.update_sync p.link.crypto.ctx_e d line y in
      let nz : ((p.link.crypto.sequence_number_o + 2) % u32_mod == 0) ≡ false = ground arith in
      let (s', q, o, i) =
        send_frame os net lib sound p.link line x e' h k key enc same (omega arith) in
      (e', s', rw (q, nz) refl, o ∙ rw silent (sym (append-nil _)))

  -- Both programs stand in one session, with nothing unread and nothing unsent. The client sends a RETR
  -- command of less than BUFFER_SIZE bytes whose name is allowed, one round of `execute` runs at the server
  -- on what it sent, and the client reads the reply and runs `recv_file` on what the server sent. If the
  -- server can open it, a regular file, and the client can open its local file, and the sequence numbers have room,
  -- all three end normally, the local file then holds exactly the content of the file on the server, and
  -- the files of the server are as they were.
  pub get_file :
      (deliver_in : (bs : Bytes) (s : S) → inbox (deliver bs s) ≡ bs)
      → (deliver_out : (bs : Bytes) (s : S) → outbox (deliver bs s) ≡ [])
      → (p : Program S C F) (c : Client S C F) (x : ℕ) (name content : Bytes) (g : F)
      → InSession InSync p c
      → outbox p.link.sock ≡ []
      → parola (x ∷ name) ≡ true
      → length (retr_line (x ∷ name)) < buffer_size
      → p.link.crypto.sequence_number_o + 2 < u32_mod
      → c.link.crypto.sequence_number_o + 2 * (2 + (length content + 4095) / 4096) < u32_mod
      → files.read c.fs (full_path (x ∷ name)) ≡ some content
      → files.tell c.fs (full_path (x ∷ name)) ≡ pos (length content)
      → local.files.create p.fs (client_root ++ (x ∷ name)) ≡ some g
      → (p1 : Program S C F) × (c1 : Client S C F) × (p2 : Program S C F) × (Program.send_cmd os lib
            local
            (retr_line (x ∷ name))
            p
          ≡ ok tt p1)
        × (Server.round os lib files (server_mail deliver c (outbox p1.link.sock)) ≡ ok true c1)
        × ((Program.receive_response os lib local >> Program.recv_file os lib local (x ∷ name))
              (with_mail deliver p1 (outbox c1.link.sock))
            ≡ ok tt p2)
        × (local.files.read p2.fs (client_root ++ (x ∷ name)) ≡ some content)
        × (c1.fs ≡ c.fs)
  get_file deliver_in deliver_out p c x name content g k unsent allowed short room_up room_down
        found sized opened =
      let line = retr_line (x ∷ name) in
      let (e', s', sent, on_wire) =
        send_cmd_lem p c.link.crypto.ctx_d k.up line (line_some x name) (omega (arith, short))
          k.key_size room_up unsent in
      let l0 : Link S C = (server_mail deliver c (outbox s')).link in
      let ready : Ready os net lib sound
          (mark_after sound p.link.crypto.ctx_e c.link.crypto.ctx_d k.up
            c.link.crypto.sequence_number_i (line ∷ []))
          l0 (line ∷ []) =
        record {
          peer = p.link.crypto.ctx_e;
          sync = k.up;
          arrives = deliver_in _ _ ∙ on_wire ∙ rw (k.same_key, k.same_up) refl;
          messages = ((line_some x name, omega (arith, short)), tt);
          ends = refl;
          counts = refl;
          room = omega (arith, room_up, k.same_up);
          keyed = rw (k.same_key) (k.key_size);
          valid = k.server_valid;
        } in
      let none_left : pending c.link.statics ≡ [] = rw (k.server_read) refl in
      let (l1, left, rounds, _, _, quiet, sender) =
        round_retr os net lib sound files x name content [] (server_mail deliver c (outbox s'))
          (line ∷ []) ready (ap (λ (bs : Bytes). bs ++ (line ++ [])) none_left) short allowed found
          sized in
      let c2 : Client S C F = record (server_mail deliver c (outbox s')) {
        link = l1;
        is = from_text (b'\n' ∷ b'\n' ∷ []);
      } in
      let y : InSync l1.crypto.ctx_e p.link.crypto.ctx_d = rw (sender.0) (k.down) in
      let hk : length l1.crypto.auth_key ≡ hmac_len = rw (sender.2, k.same_key) (k.key_size) in
      let room : l1.crypto.sequence_number_o + 2 * (2 + (length content + 4095) / 4096) < u32_mod =
        rw (sender.1) room_down in
      let (c1, _, content_sent, _, _, _, _, kept) =
        send_content_lem os net lib sound files (length content) content c2 p.link.crypto.ctx_d y
          (k.server_written) (omega (arith, room)) hk room in
      let p1 : Program S C F = record p { link = after_send p.link e' s' } in
      let (p2, got, stored, _) =
        download_stored os net lib sound local storage c2 c1
          (with_mail deliver p1 (outbox c1.link.sock)) files content (x ∷ name) g y
          (k.server_written) hk room (quiet ∙ deliver_out _ _) content_sent
          (sym (sender.2 ∙ k.same_key)) (k.same_down ∙ sym (sender.1)) (deliver_in _ _)
          (k.client_valid) (k.client_read) opened in
      (p1, c1, p2, sent, rounds ∙ rw content_sent refl, got, stored, kept)
