-- ===== src/Transfer/Exchange/List.antt =====
-- LIST as an exchange: `cmd_list` of the server and `cmd_remote_list` of the client.
use cybersec_proj.Base.{
  ℕ, ◌+◌, ◌<◌, ◌≤◌, ◌≡◌, ◌∙◌, suc, refl, sym, ap, subst, true, Bytes, List, [], ◌∷◌, ◌++◌,
  append-nil, some, arith, length, length-append, ok,
}
use cybersec_proj.Protocol.{buffer_size}
use cybersec_proj.Word.{u32_mod}
use cybersec_proj.Openssl.{Openssl, IsSound}
use cybersec_proj.Connection.{Socket}
use cybersec_proj.Connection.Stream.{Stream}
use cybersec_proj.Crypto.{Link}
use cybersec_proj.Crypto.Pending.{pending}
use cybersec_proj.Crypto.Channel.{
  Mark, mark_after, IsMessage, All, concat, wire, Ready, SameSender, plaintext,
}
use cybersec_proj.Crypto.Marks.{
  Stands, Stands-kept, Drained, Drained-kept, Ready-Drained, wire_moved,
}
use cybersec_proj.Crypto.UpTo.{UpTo, UpTo-end}
use cybersec_proj.Text.{from_text}
use cybersec_proj.ClientMain.Program
use cybersec_proj.ClientMain.Program.{Program, Local}
use cybersec_proj.ClientMain.Replies.{size_line-IsReply}
use cybersec_proj.ClientMain.Printing.{listing, IsShown}
use cybersec_proj.ClientMain.Listing.{none_or_one, recv_list_lem}
use cybersec_proj.Server
use cybersec_proj.Server.{FileSystem, Client, server_root, size_line}
use cybersec_proj.Server.Retrieve.{length-size_line}
use cybersec_proj.Server.Round.{round_reads}
use cybersec_proj.Server.Directory.{
  entries, list_line, list_line-IsReply, file_list-listing, list_obeyed, cmd_list_lem,
}
use cybersec_proj.Transfer.Ask.{client_asks, Asked-then}
use cybersec_proj.Transfer.Joint.{InSession, with_mail, server_mail, joined}
use cybersec_proj.Transfer.Exchange.{Exchange, Delivers}
use cybersec_proj.Transfer.Exchange.Meet.{up_wire, server_ready, Sent-wire, Sent-cipher}

-- What `cmd_list` sends for a listing.
abbrev list_messages : Bytes → List Bytes
list_messages m = size_line (length m) ∷ none_or_one m

concat-none_or_one : (m : Bytes) → concat (none_or_one m) ≡ m
concat-none_or_one [] = refl
concat-none_or_one (c ∷ cs) = append-nil (c ∷ cs)

length-none_or_one : (m : Bytes) → length (none_or_one m) ≤ 1
length-none_or_one [] = omega arith
length-none_or_one (c ∷ cs) = omega arith

module _ {S C F : Type 0} (os : Socket S) (net : Stream os) (lib : Openssl C)
    {InSync : C → C → Type 0} (sound : IsSound lib InSync) (files : FileSystem F) where
  open net use {inbox, outbox}

  -- The server's side: one round where the command arrives, `d` being the cipher of the client.
  server_lists :
      {up : Mark C} (c : Client S C F) (d : C) (z : InSync c.link.crypto.ctx_e d)
      (names : List Bytes)
      → Ready os net lib sound up c.link (list_line ∷ [])
      → c.link.statics.remaining ≡ 0
      → files.list c.fs server_root ≡ some names
      → length (Server.file_list os lib files names) ≤ buffer_size
      → c.link.crypto.sequence_number_o + 4 < u32_mod
      → outbox c.link.sock ≡ []
      → c.os ≡ []
      → (c' : Client S C F) × (peer : C) × (z' : InSync peer d) × (Server.round os lib files c
          ≡ ok true c')
        × (outbox c'.link.sock
            ≡ wire sound c.link.crypto.auth_key peer d z' c.link.crypto.sequence_number_o
                (list_messages (Server.file_list os lib files names)))
        × Stands
            (mark_after sound peer d z' c.link.crypto.sequence_number_o
              (list_messages (Server.file_list os lib files names)))
            c'.link
        × Drained InSync up c'.link
        × (c'.link.crypto.auth_key ≡ c.link.crypto.auth_key)
        × All IsMessage (list_messages (Server.file_list os lib files names))
        × (c'.os ≡ [])
        × (c'.fs ≡ c.fs)
  server_lists c d z names ready read found small room silent written =
      let ms = list_messages (Server.file_list os lib files names) in
      let (l1, left, rounds, rest, ready', quiet, sender) =
        round_reads os net lib sound files list_line [] c (list_line ∷ []) ready
          (ap (λ (bs : Bytes). bs ++ (list_line ++ [])) {x = pending c.link.statics} {y = []}
            (rw read refl))
          list_line-IsReply (omega arith) in
      let c2 : Client S C F = record c { link = l1; is = from_text (b'\n' ∷ b'\n' ∷ []) } in
      let z' : InSync l1.crypto.ctx_e d = rw (sender.0) z in
      let (c', q, s, empty, kept) =
        cmd_list_lem os net lib sound files c2 d z' names found small written
          (rw (sender.2) (ready.keyed)) (rw (sender.1) room) in
      let drained = Ready-Drained os net lib sound l1 left ready' (ap (length {A = ℕ}) rest) in
      (
        c',
        l1.crypto.ctx_e,
        z',
        rounds ∙ list_obeyed os lib files (record c { link = l1 }) ∙ rw q refl,
        Sent-wire os net lib sound files l1 c'.link d z' ms s (quiet ∙ silent)
            ∙ wire_moved sound l1.crypto.ctx_e d z' ms (sender.2) (sender.1),
        record {
          cipher = Sent-cipher os net lib sound files l1 c'.link d z' ms s;
          number = omega (arith, s.counted, sender.1);
        },
        Drained-kept {l = l1} drained s.receiver,
        s.keyed ∙ sender.2,
        s.messages,
        empty,
        kept,
      )

  -- After the reply, the listing is the next message, or nothing is left.
  listing_next :
      {mark : Mark C} (m : Bytes) (l : Link S C) (left : List Bytes)
      → Ready os net lib sound mark l left
      → plaintext os net lib sound l left ≡ m
      → ((m' : Bytes) (xs : List Bytes) → list_messages m ≡ xs ++ (m' ∷ []) → UpTo m' l left)
      → (left ≡ none_or_one m) × (pending l.statics ≡ [])
  listing_next [] l [] h e last = (refl, sym (append-nil (pending l.statics)) ∙ e)
  listing_next [] l (p ∷ ps) h e last = absurd (
      omega (
        arith,
        h.messages.0.0,
        ap (length {A = ℕ}) e,
        length-append (pending l.statics) (p ++ concat ps),
        length-append p (concat ps),
      ))
  listing_next (c ∷ cs) l left h e last =
      UpTo-end os net lib sound (c ∷ cs) l left h
        (last (c ∷ cs) (size_line (suc (length cs)) ∷ []) refl) e

  -- The client's side: the listing is what arrives.
  client_lists :
      {down : Mark C} (local : Local F) (p : Program S C F) (l : Link S C) (left names : List Bytes)
      (m : Bytes)
      → listing names ≡ m
      → All IsShown names
      → length m < buffer_size
      → Ready os net lib sound down l left
      → (left ≡ none_or_one m) × (pending l.statics ≡ [])
      → (p' : Program S C F) × (Program.recv_list os lib local
            (record p { link = l; is = from_text (size_line (length m)) })
          ≡ ok tt p')
        × (p'.out ≡ p.out ++ m)
        × (p'.fs ≡ p.fs)
        × Drained InSync down p'.link
        × (outbox p'.link.sock ≡ outbox l.sock)
        × SameSender l p'.link
  client_lists local p l left names m e shown small ready (same, empty) =
      let (l', is', q, ready', empty', quiet, sender) =
        recv_list_lem os net lib sound local m names (record p { link = l }) e small shown
          (subst (Ready os net lib sound _ l) same ready) empty in
      (
        record p { link = l'; is = is'; out = p.out ++ m },
        q,
        refl,
        refl,
        Ready-Drained os net lib sound l' [] ready'
            (omega (arith, length-append (pending l'.statics) [], ap (length {A = ℕ}) empty')),
        quiet,
        sender,
      )

  -- The ends stand in one session, the server can read its directory, each name there but "." and ".." has
  -- neither white space nor a zero byte in it, the listing is shorter than a buffer and the sequence numbers
  -- have room. Then `cmd_remote_list` of the client and one round of the server are an exchange that changes
  -- no file of either, and in which the client prints each of these names on a line of its own, and no more.
  pub list-Exchange :
      (local : Local F) (deliver : Bytes → S → S) (delivers : Delivers net deliver)
      (p : Program S C F) (c : Client S C F) (names : List Bytes)
      → InSession InSync p c
      → files.list c.fs server_root ≡ some names
      → All IsShown (entries names)
      → length (listing (entries names)) < buffer_size
      → p.link.crypto.sequence_number_o + 2 < u32_mod
      → c.link.crypto.sequence_number_o + 4 < u32_mod
      → (p' : Program S C F) × (c' : Client S C F) × Exchange os net lib InSync files deliver
          (Program.cmd_remote_list os lib local)
          true
          p
          c
          p'
          c'
        × (p'.out ≡ p.out ++ listing (entries names))
        × (p'.fs ≡ p.fs)
        × (c'.fs ≡ c.fs)
  unfolding Program.cmd_remote_list
  list-Exchange local deliver delivers p c names k found shown small room_up room_down =
      let text = Server.file_list os lib files names in
      let shows : listing (entries names) ≡ text = sym (file_list-listing os lib files names) in
      let size = ap (length {A = ℕ}) shows in
      let m : IsMessage list_line = (omega arith, omega arith) in
      let up = up_wire os net lib sound deliver delivers p c k (list_line ∷ []) in
      let ready =
        server_ready os net lib sound deliver delivers p c k (list_line ∷ []) (m, tt) room_up in
      let (c', peer, z, rounds, on_wire, stands, drained, keyed, messages, empty, kept) =
        server_lists (server_mail deliver c up) p.link.crypto.ctx_d k.down names ready k.server_read
          found (omega (arith, small, size)) room_down (delivers.fresh _ _) k.server_written in
      let down = outbox c'.link.sock in
      let a =
        client_asks os net lib sound local (with_mail deliver p down) c.link.crypto.ctx_d peer k.up
          z list_line (size_line (length text)) text (list_messages text) m k.key_size room_up
          (omega (arith, room_down, k.same_down, length-none_or_one text)) k.client_valid
          k.client_read (delivers.fresh _ _)
          (delivers.arrives _ _
            ∙ on_wire
            ∙ wire_moved sound peer p.link.crypto.ctx_d z (list_messages text) k.same_key
                (sym k.same_down))
          messages (ap (λ (bs : Bytes). size_line (length text) ++ bs) (concat-none_or_one text))
          (size_line-IsReply (length text))
          (omega (arith, (length-size_line (length text) (omega (arith, small, size))).1)) in
      let (p', q, out, same, drained', quiet, sender) =
        client_lists local (with_mail deliver p down) a.link a.left (entries names) text shows shown
          (omega (arith, small, size)) a.ready
          (listing_next text a.link a.left a.ready a.unread a.last) in
      let key : p'.link.crypto.auth_key ≡ p.link.crypto.auth_key = sender.2 ∙ a.keyed in
      (
        p',
        c',
        record {
          up = up;
          down = down;
          client = Asked-then os net lib sound local a _ q;
          server = rounds;
          client_sends = quiet ∙ a.sends;
          server_sends = refl;
          session =
              joined InSync p' c' (Stands-kept {l = a.link} a.stands sender) drained
                (record {
                  cipher = stands.cipher;
                  number = omega (arith, stands.number, k.same_down);
                })
                drained' (rw key (k.key_size)) (keyed ∙ k.same_key ∙ sym key) empty;
        },
        out ∙ ap (λ (bs : Bytes). p.out ++ bs) (sym shows),
        same,
        kept,
      )
