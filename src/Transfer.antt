-- ===== src/Transfer.antt =====
-- Both programs at once: a file that the client sends with `send_file` and the server stores with the
-- loop of `cmd_stor`.
pub mod Download
pub mod Joint
pub mod Ask
pub mod Exchange
pub mod Get
pub mod ClientPut
pub mod Put
pub mod Conversation
use cybersec_proj.Base.{
  ℕ, ◌+◌, ◌*◌, ◌/◌, ◌<◌, ◌≡◌, ◌∙◌, refl, sym, ap, Bytes, [], ◌++◌, some, arith, length, take,
  take_front, take_all, ok,
}
use cybersec_proj.Protocol.{hmac_len}
use cybersec_proj.Word.{u32_mod}
use cybersec_proj.Openssl.{Openssl, IsSound}
use cybersec_proj.Connection.{Socket}
use cybersec_proj.Connection.Stream.{Stream}
use cybersec_proj.Crypto.{Link}
use cybersec_proj.Crypto.Pending.{IsValid, pending}
use cybersec_proj.Crypto.Channel.{mark_after, concat, Ready, plaintext}
use cybersec_proj.Crypto.Session.{send_each-wire}
use cybersec_proj.ClientMain
use cybersec_proj.ClientMain.Upload.{send_file_lem}
use cybersec_proj.Server
use cybersec_proj.Server.{FileSystem, Client}
use cybersec_proj.Server.Store.{IsStorage, stor_loop_lem}

module _ {S C F : Type 0} (os : Socket S) (net : Stream os) (lib : Openssl C)
    {InSync : C → C → Type 0} (sound : IsSound lib InSync) (files : FileSystem F)
    (storage : IsStorage files) where
  open net use {inbox, outbox}

  -- The client's link is `l`, the server is `c`, in the same session and with nothing unread. What
  -- `send_file` puts on the wire arrives at the server, whose upload loop, told the size of the file,
  -- ends normally and leaves in the file that it opened exactly the content of the client's file.
  pub upload_stored :
      (l l' : Link S C) (c : Client S C F) (file path : Bytes)
      → InSync l.crypto.ctx_e c.link.crypto.ctx_d
      → length l.crypto.auth_key ≡ hmac_len
      → c.link.crypto.auth_key ≡ l.crypto.auth_key
      → c.link.crypto.sequence_number_i ≡ l.crypto.sequence_number_o
      → l.crypto.sequence_number_o + 2 * ((length file + 4095) / 4096) < u32_mod
      → outbox l.sock ≡ []
      → ClientMain.send_file os lib (some file) (length file) l ≡ ok tt l'
      → inbox c.link.sock ≡ outbox l'.sock
      → IsValid c.link.statics
      → c.link.statics.remaining ≡ 0
      → files.read c.fs path ≡ some []
      → (c' : Client S C F) × (Server.stor_loop os lib files (length file) (length file) path c
          ≡ ok tt c')
        × (files.read c'.fs path ≡ some file)
  upload_stored l l' c file path y hk same_key same_seq room silent sent arrived v z empty =
      let (ps, r, m, whole, n) = send_file_lem os lib file in
      let (l2, q, o, i, _, _, _, _) =
        send_each-wire os net lib sound ps l c.link.crypto.ctx_d y m hk (omega (arith, n)) in
      let same : l' ≡ l2 = cc (r l, q, sent) in
      let none_left : pending c.link.statics ≡ [] = rw z in
      let ready : Ready os net lib sound
          (mark_after sound l.crypto.ctx_e c.link.crypto.ctx_d y c.link.crypto.sequence_number_i ps)
          c.link ps =
        record {
          peer = l.crypto.ctx_e;
          sync = y;
          arrives =
              arrived
              ∙ ap (λ (k : Link S C). outbox k.sock) same
              ∙ o
              ∙ rw (silent, same_key, same_seq) refl;
          messages = m;
          ends = refl;
          counts = refl;
          room = omega (arith, n);
          keyed = rw same_key hk;
          valid = v;
        } in
      let all : plaintext os net lib sound c.link ps ≡ file =
        ap (λ (bs : Bytes). bs ++ concat ps) none_left ∙ whole in
      let (c', left, content, q', e, k, s, _, _, _, _, _) =
        stor_loop_lem os net lib sound files storage (length file) (length file) path [] c ps ready
          (omega arith) (omega (arith, ap (length {A = ℕ}) all)) empty in
      let front : content ≡ file =
        sym (take_front (length file) content (plaintext os net lib sound c'.link left) k)
        ∙ ap (take (length file)) (sym s ∙ all)
        ∙ take_all (length file) file (omega arith) in
      (c', q', e ∙ ap some front)
