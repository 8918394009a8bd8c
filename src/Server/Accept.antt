-- ===== src/Server/Accept.antt =====
-- STOR of a file that the server accepts: the go-ahead, then the content.
use cybersec_proj.Base.{
  ℕ, ◌+◌, ◌^◌, ◌≤◌, ◌<◌, ◌≡◌, ◌∙◌, false, Bytes, List, [], ◌∷◌, ◌++◌, some, arith, length,
  length-append, ok, bind,
}
use cybersec_proj.Base.Int.{pos, exceeds}
use cybersec_proj.Protocol.{max_file_size, ok_status}
use cybersec_proj.Word.{u32_mod}
use cybersec_proj.Text.{decimal}
use cybersec_proj.Text.Decimal.{length-decimal}
use cybersec_proj.Openssl.{Openssl, IsSound}
use cybersec_proj.Connection.{Socket}
use cybersec_proj.Connection.Stream.{Stream}
use cybersec_proj.Crypto.{Link}
use cybersec_proj.Crypto.Wire.{after_send}
use cybersec_proj.Crypto.Channel.{Mark, IsMessage, Ready, SameSender, plaintext}
use cybersec_proj.Server
use cybersec_proj.Server.{FileSystem, Client, full_path, status_line}
use cybersec_proj.Server.Reply.{Sent, send_cmd_exact}
use cybersec_proj.Server.Store.{IsStorage, Wrote, create, stor_loop_lem}

pub status_line-IsMessage : (n : ℕ) → n < 10 ^ 20 → IsMessage (status_line n)
status_line-IsMessage n h =
    let len = length-append (decimal n) (b'\n' ∷ b'\n' ∷ []) in
    (omega (arith, len), omega (arith, len, length-decimal n h))

module _ {S C F : Type 0} (os : Socket S) (net : Stream os) (lib : Openssl C)
    {InSync : C → C → Type 0} (sound : IsSound lib InSync) (files : FileSystem F)
    (storage : IsStorage files) where
  -- The size is at most MAX_FILE_SIZE, the file can be opened, nothing is left in the stream, the
  -- peer's ciphers are in step in both directions and at least `size` bytes of plaintext are on the
  -- way. Then STOR sends the status 200 alone, ends normally, and the file has exactly the next
  -- `size` bytes of the plaintext; what follows them is left for the next command.
  pub upload_accepted :
      {mark : Mark C} (name : Bytes) (size : ℕ) (g : F) (c : Client S C F) (d : C)
      (y : InSync c.link.crypto.ctx_e d) (ps : List Bytes)
      → size ≤ max_file_size
      → files.create c.fs (full_path name) ≡ some g
      → c.os ≡ []
      → c.link.crypto.sequence_number_o + 2 < u32_mod
      → Ready os net lib sound mark c.link ps
      → size ≤ length (plaintext os net lib sound c.link ps)
      → (told : Link S C) × (c' : Client S C F) × (left : List Bytes) × (content : Bytes) × Sent os
          net lib sound files c.link d y told
          (status_line ok_status ∷ [])
        × (Server.stor_sized os lib files name (pos size) c ≡ ok tt c')
        × (net.outbox c'.link.sock ≡ net.outbox told.sock)
        × (files.read c'.fs (full_path name) ≡ some content)
        × (length content ≡ size)
        × (plaintext os net lib sound c.link ps
            ≡ content ++ plaintext os net lib sound c'.link left)
        × Ready os net lib sound mark c'.link left
        × SameSender told c'.link
        × (c'.os ≡ [])
        × Wrote files (full_path name) c.fs c'.fs
  unfolding Server.stor_sized Server.stor_content Server.reply
  upload_accepted {mark = mark} name size g c d y ps small opened empty room ready enough =
      let c0 : Client S C F = record c { fs = g; os = status_line ok_status } in
      let (e', s', q, sent) =
        send_cmd_exact os net lib sound files c0 d y (status_line-IsMessage ok_status (omega arith))
          ready.keyed room in
      let c1 : Client S C F = record c0 { link = after_send c.link e' s'; os = [] } in
      let ready' : Ready os net lib sound mark c1.link ps = record {
        peer = ready.peer;
        sync = ready.sync;
        arrives = sent.unread ∙ ready.arrives;
        messages = ready.messages;
        ends = ready.ends;
        counts = ready.counts;
        room = ready.room;
        keyed = ready.keyed;
        valid = ready.valid;
      } in
      let fits : exceeds (pos size) max_file_size ≡ false = ground arith in
      let (c', left, content, q', e, k, s, o, h, w, z, t) =
        stor_loop_lem os net lib sound files storage size size (full_path name) [] c1 ps ready'
          (omega arith) enough (storage.create_empty c.fs g (full_path name) opened) in
      (
        c1.link,
        c',
        left,
        content,
        sent,
        rw (fits, opened, bind, empty, q, bind) q',
        o,
        e,
        k,
        s,
        h,
        w,
        z,
        create opened t,
      )
