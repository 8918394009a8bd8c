-- ===== src/Transfer/ClientPut.antt =====
-- The client's side of the command `put`, where the go-ahead of the server arrives.
use cybersec_proj.Base.{
  ℕ, append_assoc, ◌+◌, ◌*◌, ◌^◌, ◌<◌, ◌≤◌, ◌≡◌, ◌∙◌, refl, ap, Bytes, List, [], ◌∷◌, ◌++◌, some,
  arith, length, length-append, ok,
}
use cybersec_proj.Base.Int.{pos}
use cybersec_proj.Protocol.{hmac_len, buffer_size, ok_status}
use cybersec_proj.Word.{u32_mod}
use cybersec_proj.Openssl.{Openssl, IsSound}
use cybersec_proj.Connection.{Socket}
use cybersec_proj.Connection.Stream.{Stream}
use cybersec_proj.Crypto.{Link}
use cybersec_proj.Crypto.Pending.{IsValid}
use cybersec_proj.Crypto.Wire.{frame}
use cybersec_proj.Crypto.Channel.{mark_after, SameReceiver, IsMessage, All, wire}
use cybersec_proj.Crypto.Session.{send_each, send_each-wire}
use cybersec_proj.Text.{from_text, decimal, int64_max, extract_int64}
use cybersec_proj.Text.Extract.{extract_int64-decimal}
use cybersec_proj.Text.Decimal.{length-decimal}
use cybersec_proj.Crypto.Marks.{Stands, Drained, Drained-kept, Ready-Drained}
use cybersec_proj.Transfer.Ask.{client_asks, Asked-then}
use cybersec_proj.Text.Plain.{decimal-IsPlainText}
use cybersec_proj.ClientMain
use cybersec_proj.ClientMain.Program
use cybersec_proj.ClientMain.Program.{Program, Local, stor_line}
use cybersec_proj.ClientMain.Response.{IsReply}
use cybersec_proj.ClientMain.Replies.{IsReply-after, empty_line}
use cybersec_proj.Server.{status_line}
use cybersec_proj.Server.Accept.{status_line-IsMessage}

pub status_line-IsReply : (n : ℕ) → IsReply 0 (status_line n)
status_line-IsReply n =
    IsReply-after 0 (decimal n) _ (decimal-IsPlainText n) (omega arith) empty_line

pub status_line_short : (n : ℕ) → n < 10 ^ 20 → length (status_line n) < buffer_size
status_line_short n h =
    omega (arith, length-append (decimal n) (b'\n' ∷ b'\n' ∷ []), length-decimal n h)

pub status_line_read :
    (n : ℕ)
    → n ≤ int64_max
    → extract_int64 (from_text (status_line n)) ≡ (some (pos n), from_text (b'\n' ∷ b'\n' ∷ []))
status_line_read n h = extract_int64-decimal n b'\n' (b'\n' ∷ []) h refl

module _ {S C F : Type 0} (os : Socket S) (net : Stream os) (lib : Openssl C)
    {InSync : C → C → Type 0} (sound : IsSound lib InSync) (local : Local F) where
  open net use {inbox, outbox}

  -- `send_file` from a link whose cipher is known under another name.
  send_file_from :
      (content : Bytes) (ps : List Bytes) (l : Link S C) (e d : C) (y : InSync e d)
      → l.crypto.ctx_e ≡ e
      → ((k : Link S C)
          → ClientMain.send_file os lib (some content) (length content) k ≡ send_each os lib ps k)
      → All IsMessage ps
      → length l.crypto.auth_key ≡ hmac_len
      → l.crypto.sequence_number_o + 2 * length ps < u32_mod
      → (l' : Link S C) × (ClientMain.send_file os lib (some content) (length content) l ≡ ok tt l')
        × (outbox l'.sock
            ≡ outbox l.sock ++ wire sound l.crypto.auth_key e d y l.crypto.sequence_number_o ps)
        × Stands (mark_after sound e d y l.crypto.sequence_number_o ps) l'
        × (l'.crypto.auth_key ≡ l.crypto.auth_key)
        × SameReceiver l l'
  send_file_from content ps l e d y same r m hk room =
      let l0 : Link S C = record l { crypto = record (l.crypto) { ctx_e = e } } in
      let moved : l ≡ l0 =
        ap (λ (k : C). record l { crypto = record (l.crypto) { ctx_e = k } }) same in
      let (l', q, o, _, c', n, k, w) = send_each-wire os net lib sound ps l0 d y m hk room in
      (
        l',
        ap (ClientMain.send_file os lib (some content) (length content)) moved ∙ r l0 ∙ q,
        o,
        record { cipher = c'; number = n },
        k,
        w,
      )

  -- The client's side of `put`: the go-ahead is what arrives.
  pub client_puts :
      (p : Program S C F) (d peer : C) (y : InSync p.link.crypto.ctx_e d)
      (z : InSync peer p.link.crypto.ctx_d) (path name content : Bytes) (ps : List Bytes)
      → local.reopen p.fs path ≡ some content
      → ((k : Link S C)
          → ClientMain.send_file os lib (some content) (length content) k ≡ send_each os lib ps k)
      → All IsMessage ps
      → length p.link.crypto.auth_key ≡ hmac_len
      → IsMessage (stor_line name (length content))
      → p.link.crypto.sequence_number_o + 2 * (1 + length ps) < u32_mod
      → p.link.crypto.sequence_number_i + 2 < u32_mod
      → IsValid p.link.statics
      → p.link.statics.remaining ≡ 0
      → outbox p.link.sock ≡ []
      → inbox p.link.sock
        ≡ wire sound p.link.crypto.auth_key peer p.link.crypto.ctx_d z
            p.link.crypto.sequence_number_i
            (status_line ok_status ∷ [])
      → (p' : Program S C F) × (Program.put os lib local path name content p ≡ ok tt p')
        × (outbox p'.link.sock
            ≡ wire sound p.link.crypto.auth_key p.link.crypto.ctx_e d y
                p.link.crypto.sequence_number_o
                (stor_line name (length content) ∷ ps))
        × Stands
            (mark_after sound p.link.crypto.ctx_e d y p.link.crypto.sequence_number_o
              (stor_line name (length content) ∷ ps))
            p'.link
        × Drained InSync
            (mark_after sound peer p.link.crypto.ctx_d z p.link.crypto.sequence_number_i
              (status_line ok_status ∷ []))
            p'.link
        × (p'.link.crypto.auth_key ≡ p.link.crypto.auth_key)
        × (p'.fs ≡ p.fs)
  unfolding Program.put Program.read_number
  client_puts p d peer y z path name content ps reopened r m hk line room_o room_i valid none_left
        silent arrived =
      let text = stor_line name (length content) in
      let (x, e1, d1, enc, dec, same, y1) = sound.update_sync p.link.crypto.ctx_e d text y in
      let a =
        client_asks os net lib sound local p d peer y z text (status_line ok_status) []
          (status_line ok_status ∷ []) line hk (omega arith) (omega (arith, room_i)) valid none_left
          silent arrived (status_line-IsMessage ok_status (omega arith), tt) refl
          (status_line-IsReply ok_status) (status_line_short ok_status (omega arith)) in
      let (l3, q3, o3, stands, keyed, kept) =
        send_file_from content ps a.link e1 d1 y1 a.stands.cipher r m (rw (a.keyed) hk)
          (rw (a.stands.number) (omega (arith, room_o))) in
      (
        record p { link = l3; is = from_text (b'\n' ∷ b'\n' ∷ []) },
        Asked-then os net lib sound local a _
            (rw (status_line_read ok_status (omega arith), reopened, q3) refl),
        o3
            ∙ rw (a.sends, a.stands.number, a.keyed)
                (append_assoc (frame sound p.link.crypto.auth_key p.link.crypto.sequence_number_o x)
                  []
                  (wire sound p.link.crypto.auth_key e1 d1 y1 (p.link.crypto.sequence_number_o + 2)
                    ps)),
        record { cipher = stands.cipher; number = omega (arith, stands.number, a.stands.number) },
        Drained-kept {l = a.link}
            (Ready-Drained os net lib sound a.link a.left a.ready (ap (length {A = ℕ}) a.unread))
            kept,
        keyed ∙ a.keyed,
        refl,
      )
