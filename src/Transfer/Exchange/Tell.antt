-- ===== src/Transfer/Exchange/Tell.antt =====
-- A command that the server answers by one status: what both ends do, whatever the command.
use cybersec_proj.Base.{
  ℕ, ◌+◌, ◌<◌, ◌≤◌, ◌≡◌, ◌∙◌, refl, sym, ap, Bool, Bytes, [], ◌∷◌, ◌++◌, arith, length, ok, bind,
  return, M,
}
use cybersec_proj.Protocol.{buffer_size}
use cybersec_proj.Word.{u32_mod}
use cybersec_proj.Openssl.{Openssl, IsSound}
use cybersec_proj.Connection.{Socket}
use cybersec_proj.Connection.Stream.{Stream}
use cybersec_proj.Crypto.{Link}
use cybersec_proj.Crypto.Pending.{pending}
use cybersec_proj.Crypto.Channel.{Mark, mark_after, IsMessage, wire, Ready}
use cybersec_proj.Crypto.Marks.{Stands, Drained, Drained-kept, Ready-Drained, wire_moved}
use cybersec_proj.Text.{Istream, from_text, int64_max}
use cybersec_proj.ClientMain.Program
use cybersec_proj.ClientMain.Program.{Program, Local}
use cybersec_proj.ClientMain.Response.{IsReply}
use cybersec_proj.Server
use cybersec_proj.Server.{FileSystem, Client, status_line}
use cybersec_proj.Server.Accept.{status_line-IsMessage}
use cybersec_proj.Server.Reply.{send_cmd_lem}
use cybersec_proj.Server.Round.{round_reads}
use cybersec_proj.Server.RoundStatus.{Tells}
use cybersec_proj.Transfer.Ask.{client_asks, Asked-then}
use cybersec_proj.Transfer.ClientPut.{status_line-IsReply, status_line_short}
use cybersec_proj.Transfer.Joint.{InSession, with_mail, server_mail, joined}
use cybersec_proj.Transfer.Exchange.{Exchange, Delivers}
use cybersec_proj.Transfer.Exchange.Meet.{up_wire, server_ready, Sent-wire}

module _ {S C F : Type 0} (os : Socket S) (net : Stream os) (lib : Openssl C)
    {InSync : C → C → Type 0} (sound : IsSound lib InSync) (files : FileSystem F) where
  open net use {inbox, outbox}

  replied :
      (c c' : Client S C F) (status : ℕ) (more : Bool)
      → c.os ≡ []
      → Server.send_cmd os lib files (record c { os = status_line status }) ≡ ok tt c'
      → bind (Server.reply os lib files status c) (λ _. return more) ≡ ok more c'
  unfolding Server.reply
  replied c c' status more written q = rw (written, q) refl

  -- The server's side: one round where the command arrives, `d` being the cipher of the client.
  server-Tells :
      {up : Mark C} (c : Client S C F) (d : C) (z : InSync c.link.crypto.ctx_e d) (line : Bytes)
      (status : ℕ) (more : Bool) (g : F)
      → Ready os net lib sound up c.link (line ∷ [])
      → c.link.statics.remaining ≡ 0
      → IsReply 0 line
      → length line < buffer_size
      → status ≤ int64_max
      → c.link.crypto.sequence_number_o + 2 < u32_mod
      → outbox c.link.sock ≡ []
      → c.os ≡ []
      → Tells os lib files line status more c g
      → (c' : Client S C F) × (peer : C) × (z' : InSync peer d) × (Server.round os lib files c
          ≡ ok more c')
        × (outbox c'.link.sock
            ≡ wire sound c.link.crypto.auth_key peer d z' c.link.crypto.sequence_number_o
                (status_line status ∷ []))
        × Stands
            (mark_after sound peer d z' c.link.crypto.sequence_number_o (status_line status ∷ []))
            c'.link
        × Drained InSync up c'.link
        × (c'.link.crypto.auth_key ≡ c.link.crypto.auth_key)
        × (c'.os ≡ [])
        × (c'.fs ≡ g)
  server-Tells c d z line status more g ready read reply short small room silent written tells =
      let (l1, left, rounds, rest, ready', quiet, sender) =
        round_reads os net lib sound files line [] c (line ∷ []) ready
          (ap (λ (bs : Bytes). bs ++ (line ++ [])) {x = pending c.link.statics} {y = []}
            (rw read refl))
          reply short in
      let (is', obeyed) = tells l1 in
      let c2 : Client S C F = record c { link = l1; is = is'; fs = g; os = status_line status } in
      let z' : InSync l1.crypto.ctx_e d = rw (sender.0) z in
      let (c', q, s, empty, kept) =
        send_cmd_lem os net lib sound files c2 d z' (status_line-IsMessage status (omega arith))
          (rw (sender.2) (ready.keyed)) (rw (sender.1) room) in
      let drained = Ready-Drained os net lib sound l1 left ready' (ap (length {A = ℕ}) rest) in
      (
        c',
        l1.crypto.ctx_e,
        z',
        rounds
            ∙ obeyed
            ∙ replied (record c { link = l1; is = is'; fs = g }) c' status more written q,
        Sent-wire os net lib sound files l1 c'.link d z' (status_line status ∷ []) s
              (quiet ∙ silent)
            ∙ wire_moved sound l1.crypto.ctx_e d z' (status_line status ∷ []) (sender.2) (sender.1),
        record { cipher = s.ended []; number = omega (arith, s.counted, sender.1) },
        Drained-kept {l = l1} drained s.receiver,
        s.keyed ∙ sender.2,
        empty,
        kept,
      )

  -- Both ends: the client sends the command, reads the answer and then does `rest`, which leaves its link
  -- alone.
  pub told-Exchange :
      (local : Local F) (deliver : Bytes → S → S) (delivers : Delivers net deliver)
      (p : Program S C F) (c : Client S C F) (line : Bytes) (status : ℕ) (more : Bool) (g : F)
      (run rest : M (Program S C F) (Unit {0})) (is' : Istream)
      → InSession InSync p c
      → 0 < length line
      → IsReply 0 line
      → length line < buffer_size
      → status ≤ int64_max
      → p.link.crypto.sequence_number_o + 2 < u32_mod
      → c.link.crypto.sequence_number_o + 2 < u32_mod
      → ((s : Program S C F)
          → s.fs ≡ p.fs
          → run s
            ≡ bind
                (Program.send_cmd os lib local line s)
                (λ _ s1. bind (Program.receive_response os lib local s1) (λ _ s2. rest s2)))
      → ((c1 : Client S C F) → c1.fs ≡ c.fs → Tells os lib files line status more c1 g)
      → ((l : Link S C)
          → rest (record p { link = l; is = from_text (status_line status) })
            ≡ ok tt (record p { link = l; is = is' }))
      → (p' : Program S C F) × (c' : Client S C F) × Exchange os net lib InSync files deliver run
          more p c p' c'
        × (p'.fs ≡ p.fs)
        × (c'.fs ≡ g)
        × (p'.link.crypto.sequence_number_o ≡ p.link.crypto.sequence_number_o + 2)
        × (c'.link.crypto.sequence_number_o ≡ c.link.crypto.sequence_number_o + 2)
  told-Exchange local deliver delivers p c line status more g run rest is' k some_line reply short
        small room_up room_down runs tells finish =
      let m : IsMessage line = (some_line, omega (arith, short)) in
      let up = up_wire os net lib sound deliver delivers p c k (line ∷ []) in
      let ready =
        server_ready os net lib sound deliver delivers p c k (line ∷ []) (m, tt) room_up in
      let (c', peer, z, rounds, on_wire, stands, drained, keyed, empty, kept) =
        server-Tells (server_mail deliver c up) p.link.crypto.ctx_d k.down line status more g ready
          k.server_read reply short small room_down (delivers.fresh _ _) k.server_written
          (tells (server_mail deliver c up) refl) in
      let down = outbox c'.link.sock in
      let a =
        client_asks os net lib sound local (with_mail deliver p down) c.link.crypto.ctx_d peer k.up
          z line (status_line status) [] (status_line status ∷ []) m k.key_size room_up
          (omega (arith, room_down, k.same_down)) k.client_valid k.client_read (delivers.fresh _ _)
          (delivers.arrives _ _
            ∙ on_wire
            ∙ wire_moved sound peer p.link.crypto.ctx_d z (status_line status ∷ []) k.same_key
                (sym k.same_down))
          (status_line-IsMessage status (omega arith), tt) refl (status_line-IsReply status)
          (status_line_short status (omega arith)) in
      let p' : Program S C F = record p { link = a.link; is = is' } in
      (
        p',
        c',
        record {
          up = up;
          down = down;
          client = runs _ refl ∙ Asked-then os net lib sound local a _ (finish a.link);
          server = rounds;
          client_sends = a.sends;
          server_sends = refl;
          session =
              joined InSync p' c' a.stands drained
                (record {
                  cipher = stands.cipher;
                  number = omega (arith, stands.number, k.same_down);
                })
                (Ready-Drained os net lib sound a.link a.left a.ready
                  (ap (length {A = ℕ}) a.unread))
                (rw (a.keyed) (k.key_size)) (keyed ∙ k.same_key ∙ sym a.keyed) empty;
        },
        refl,
        kept,
        a.stands.number,
        stands.number,
      )
