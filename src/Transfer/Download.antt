-- ===== src/Transfer/Download.antt =====
-- Both programs at once: a file that the server sends for RETR and the client stores with `recv_file`.
use cybersec_proj.Base.Int.{pos}
use cybersec_proj.Base.{
  ℕ, ◌+◌, ◌*◌, ◌/◌, ◌<◌, ◌≤◌, ◌≡◌, ◌∙◌, refl, sym, ap, Bytes, List, [], ◌++◌, append-nil, some,
  arith, length, take, take_front, ok, ◌>>◌, ok-inj, bytes_eq, length-append,
}
use cybersec_proj.Protocol.{hmac_len}
use cybersec_proj.Word.{u32_mod}
use cybersec_proj.Openssl.{Openssl, IsSound}
use cybersec_proj.Connection.{Socket}
use cybersec_proj.Connection.Stream.{Stream}
use cybersec_proj.Crypto.Pending.{IsValid, pending}
use cybersec_proj.Crypto.Channel.{Mark, mark_after, SameSender, concat, wire, Ready, plaintext}
use cybersec_proj.Text.{from_text, int64_max}
use cybersec_proj.Server
use cybersec_proj.Server.{FileSystem, Client, size_line}
use cybersec_proj.Server.Retrieve.{send_content_lem, length-size_line}
use cybersec_proj.Server.Store.{IsStorage, Wrote, create}
use cybersec_proj.ClientMain.Response.{recv_response_lem}
use cybersec_proj.ClientMain.Program
use cybersec_proj.ClientMain.Program.{Program, Local, client_root}
use cybersec_proj.ClientMain.Fetch.{recv_file_loop_lem}
use cybersec_proj.ClientMain.Replies.{
  size_line-IsReply, size_line_status, size_line_tag, size_line_size,
}

module _ {S C F : Type 0} (os : Socket S) (net : Stream os) (lib : Openssl C)
    {InSync : C → C → Type 0} (sound : IsSound lib InSync) (local : Local F)
    (storage : IsStorage local.files) where
  open net use {inbox, outbox}

  -- `recv_file` where the reply to it is in the stream and the content is on its way.
  pub recv_file_lem :
      {mark : Mark C} (p : Program S C F) (filename content rest : Bytes) (g : F) (ps : List Bytes)
      → Ready os net lib sound mark p.link ps
      → plaintext os net lib sound p.link ps ≡ content ++ rest
      → length content ≤ int64_max
      → local.files.create p.fs (client_root ++ filename) ≡ some g
      → (p' : Program S C F) × (Program.recv_file os lib local filename
            (record p { is = from_text (size_line (length content)) })
          ≡ ok tt p')
        × (local.files.read p'.fs (client_root ++ filename) ≡ some content)
        × (outbox p'.link.sock ≡ outbox p.link.sock)
        × (left : List Bytes) × Ready os net lib sound mark p'.link left
        × (length (plaintext os net lib sound p'.link left) ≡ length rest)
        × SameSender p.link p'.link
        × Wrote local.files (client_root ++ filename) p.fs p'.fs
  unfolding Program.recv_file Program.file_tagged Program.file_sized Program.read_number
      Program.read_word bytes_eq
  recv_file_lem p filename content rest g ps h e small opened =
      let p1 : Program S C F = record p { is = from_text []; fs = g } in
      let (p', left, got, r, stored, n, s, o, h', w, t) =
        recv_file_loop_lem os net lib sound local storage (length content) (length content)
          (client_root ++ filename) [] p1 ps h (omega arith)
          (omega (arith, ap (length {A = ℕ}) e, length-append content rest))
          (storage.create_empty p.fs g (client_root ++ filename) opened) in
      let front : got ≡ content =
        sym (take_front (length content) got (plaintext os net lib sound p'.link left) n)
        ∙ ap (take (length content)) (sym s ∙ e)
        ∙ take_front (length content) content rest refl in
      (
        p',
        rw
            (
              size_line_status (length content),
              size_line_tag (length content),
              size_line_size (length content) small,
              opened,
            )
            r,
        stored ∙ ap some front,
        o,
        left,
        h',
        omega (
          arith,
          n,
          length-append got (plaintext os net lib sound p'.link left),
          length-append content rest,
          ap (length {A = ℕ}) s,
          ap (length {A = ℕ}) e,
        ),
        w,
        create opened t,
      )

  -- The server is at `c` with nothing written, and sends the content of a file to RETR. The client is at
  -- `p`, in the same session and with nothing unread, and what the server sends arrives there. If the
  -- local file can be opened, reading the reply and `recv_file` end normally, and leave in the local file
  -- exactly the content of the file on the server; the client sends nothing meanwhile.
  pub download_stored :
      (c c' : Client S C F) (p : Program S C F) (files : FileSystem F) (content filename : Bytes)
      (g : F)
      → InSync c.link.crypto.ctx_e p.link.crypto.ctx_d
      → c.os ≡ []
      → length c.link.crypto.auth_key ≡ hmac_len
      → c.link.crypto.sequence_number_o + 2 * (2 + (length content + 4095) / 4096) < u32_mod
      → outbox c.link.sock ≡ []
      → Server.send_content os lib files (pos (length content)) content c ≡ ok tt c'
      → p.link.crypto.auth_key ≡ c.link.crypto.auth_key
      → p.link.crypto.sequence_number_i ≡ c.link.crypto.sequence_number_o
      → inbox p.link.sock ≡ outbox c'.link.sock
      → IsValid p.link.statics
      → p.link.statics.remaining ≡ 0
      → local.files.create p.fs (client_root ++ filename) ≡ some g
      → (p' : Program S C F) × ((Program.receive_response os lib local
              >> Program.recv_file os lib local filename)
            p
          ≡ ok tt p')
        × (local.files.read p'.fs (client_root ++ filename) ≡ some content)
        × (outbox p'.link.sock ≡ outbox p.link.sock)
  unfolding Program.receive_response
  download_stored c c' p files content filename g y empty hk room silent ran same_key same_seq
        arrived v z opened =
      let (c2, sent, r, s, whole, count, _, _) =
        send_content_lem os net lib sound files (length content) content c p.link.crypto.ctx_d y
          empty (omega (arith, room)) hk room in
      let same : c' ≡ c2 = (ok-inj {a = tt} {b = tt} {s = c'} {t = c2} (sym ran ∙ r)).1 in
      let none_left : pending p.link.statics ≡ [] = rw z in
      let on_wire : outbox c2.link.sock
          ≡ wire sound c.link.crypto.auth_key c.link.crypto.ctx_e p.link.crypto.ctx_d y
              c.link.crypto.sequence_number_o sent =
        sym (append-nil (outbox c2.link.sock)) ∙ s.carries [] ∙ rw (silent, append-nil sent) refl in
      let ready : Ready os net lib sound
          (mark_after sound c.link.crypto.ctx_e p.link.crypto.ctx_d y
            p.link.crypto.sequence_number_i sent)
          p.link sent =
        record {
          peer = c.link.crypto.ctx_e;
          sync = y;
          arrives =
              arrived
              ∙ ap (λ (k : Client S C F). outbox k.link.sock) same
              ∙ on_wire
              ∙ rw (same_key, same_seq) refl;
          messages = s.messages;
          ends = refl;
          counts = refl;
          room = omega (arith, count);
          keyed = rw same_key hk;
          valid = v;
        } in
      let all : plaintext os net lib sound p.link sent ≡ size_line (length content) ++ content =
        ap (λ (bs : Bytes). bs ++ concat sent) none_left ∙ whole in
      let (l1, left, q, rest, ready1, quiet, _, _) =
        recv_response_lem os net lib sound (size_line (length content)) content p.link sent ready
          (size_line-IsReply (length content)) all
          (omega (arith, (length-size_line (length content) (omega arith)).1)) in
      let (p', q', stored, o, _, _, _, _, _) =
        recv_file_lem (record p { link = l1 }) filename content [] g left ready1
          (rest ∙ sym (append-nil content)) (omega arith) opened in
      (p', rw q q', stored, o ∙ quiet)
