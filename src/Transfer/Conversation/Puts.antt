-- ===== src/Transfer/Conversation/Puts.antt =====
-- `put` by itself does what `perform` says.
use cybersec_proj.Base.{
  ℕ, ◌+◌, ◌<◌, ◌≤◌, ◌≡◌, ◌∙◌, refl, sym, ap, Bool, true, false, Bytes, [], ◌∷◌, none, some, arith,
  length, ok, Bool-cases, Option-cases, inl, inr, ltb,
}
use cybersec_proj.Protocol.{buffer_size, parola, max_file_size}
use cybersec_proj.Word.{u32_mod}
use cybersec_proj.Openssl.{Openssl, IsSound}
use cybersec_proj.Connection.{Socket}
use cybersec_proj.Connection.Stream.{Stream}
use cybersec_proj.ClientMain.Program
use cybersec_proj.ClientMain.Program.{Program, Local, stor_line, basename}
use cybersec_proj.Server.{FileSystem, Client, full_path}
use cybersec_proj.Transfer.Joint.{InSession}
use cybersec_proj.Transfer.Exchange.{Delivers}
use cybersec_proj.Transfer.Exchange.Put.{put-Exchange}
use cybersec_proj.Transfer.Conversation.{
  put, perform, IsName, IsRequest, cost, view, contents, exchanged, idle,
}
use cybersec_proj.Transfer.Conversation.Entered.{
  after_line, after_line-InSession, entered-put, entered-Exchange,
}
use cybersec_proj.Text.Extract.{IsWord}
use cybersec_proj.Transfer.Conversation.Disk.{IsDisk, Wrote-update}
use cybersec_proj.Transfer.Conversation.Steps.{
  Performed, view_eq, perform_absent, perform_large, perform_stored,
}

IsName-cons :
    (line : Bytes → Bytes) (bs : Bytes)
    → IsName line bs
    → (x : ℕ) × (name : Bytes) × (bs ≡ x ∷ name)
      × (parola (x ∷ name) ≡ true)
      × (length (line (x ∷ name)) < buffer_size)
IsName-cons line [] h = absurd h
IsName-cons line (x ∷ name) h = (x, name, refl, h.0, h.1)

-- `cmd_stor` of a path where nothing can be read, and of a file that is too large.
absent_idle :
    {S C F : Type 0} (os : Socket S) (lib : Openssl C) (local : Local F) (a : ℕ) (path : Bytes)
    (p : Program S C F) (regular : Bool)
    → local.stat p.fs (a ∷ path) ≡ regular
    → local.files.read p.fs (a ∷ path) ≡ none
    → Program.cmd_stor os lib local (a ∷ path) p ≡ ok tt p
unfolding Program.cmd_stor Program.check_and_get_file_size
absent_idle os lib local a path p true e absent = rw (e, absent) refl
absent_idle os lib local a path p false e absent = rw e refl

large_idle :
    {S C F : Type 0} (os : Socket S) (lib : Openssl C) (local : Local F) (a : ℕ)
    (path content : Bytes) (p : Program S C F)
    → local.stat p.fs (a ∷ path) ≡ true
    → local.files.read p.fs (a ∷ path) ≡ some content
    → ltb max_file_size (length content) ≡ true
    → Program.cmd_stor os lib local (a ∷ path) p ≡ ok tt p
unfolding Program.cmd_stor Program.check_and_get_file_size
large_idle os lib local a path content p e found large = rw (e, found, large) refl

module _ {S C F : Type 0} (os : Socket S) (net : Stream os) (lib : Openssl C)
    {InSync : C → C → Type 0} (sound : IsSound lib InSync) (files : FileSystem F)
    (disk : IsDisk files) (local : Local F) (own : IsDisk local.files)
    (regular : (f : F) (path content : Bytes)
      → local.files.read f path ≡ some content
      → (local.stat f path ≡ true) × (local.reopen f path ≡ some content))
    (deliver : Bytes → S → S) (delivers : Delivers net deliver) where
  -- A command for which the client does nothing.
  nothing :
      (p : Program S C F) (c : Client S C F) (a : ℕ) (path : Bytes)
      → InSession InSync p c
      → IsWord (a ∷ path)
      → Program.cmd_stor os lib local (a ∷ path) (after_line p) ≡ ok tt (after_line p)
      → perform (put (a ∷ path)) (view os net lib InSync files local deliver p c)
        ≡ view os net lib InSync files local deliver p c
      → Performed os net lib sound files disk local own regular deliver delivers
          (put (a ∷ path))
          p
          c
  nothing p c a path k h q same = record {
    program = after_line p;
    client = c;
    turn = idle (entered-put os net lib InSync files local deliver a path h p ∙ q);
    session = after_line-InSession InSync p c k;
    shows = sym same;
    up = omega arith;
    down = omega arith;
  }

  stored :
      (p : Program S C F) (c : Client S C F) (a : ℕ) (path content : Bytes)
      → InSession InSync p c
      → IsRequest (put (a ∷ path))
      → p.link.crypto.sequence_number_o + cost < u32_mod
      → c.link.crypto.sequence_number_o + cost < u32_mod
      → local.files.read p.fs (a ∷ path) ≡ some content
      → ltb max_file_size (length content) ≡ false
      → Performed os net lib sound files disk local own regular deliver delivers
          (put (a ∷ path))
          p
          c
  stored p c a path content k h room_up room_down found fits =
      let small : length content ≤ max_file_size = ground arith in
      let (x, name, named, allowed, short) =
        IsName-cons (λ n. stor_line n (length content)) (basename (a ∷ path))
          (h.1 (length content) small) in
      let (g, opened) = disk.opens c.fs (full_path (x ∷ name)) in
      let (p', c', e, kept, wrote, same, up, down) =
        put-Exchange os net lib sound files disk.storage local deliver delivers (after_line p) c a
          path x name content g (after_line-InSession InSync p c k) named allowed
          ((regular p.fs (a ∷ path) content found).0) found
          ((regular p.fs (a ∷ path) content found).1) small short (omega arith) (omega arith)
          opened in
      record {
        program = p';
        client = c';
        turn = exchanged (
            entered-Exchange os net lib InSync files local deliver (put (a ∷ path))
              (entered-put os net lib InSync files local deliver a path h.0) e);
        session = e.session;
        shows =
            view_eq
              (Wrote-update files disk c.fs c'.fs (full_path (x ∷ name)) content kept wrote
                ∙ rw named refl)
              (ap (contents local.files) same)
            ∙ sym (
                perform_stored (a ∷ path) content (view os net lib InSync files local deliver p c)
                  found fits);
        up = omega (arith, up);
        down = omega (arith, down);
      }

  pub puts :
      (p : Program S C F) (c : Client S C F) (a : ℕ) (path : Bytes)
      → InSession InSync p c
      → IsRequest (put (a ∷ path))
      → p.link.crypto.sequence_number_o + cost < u32_mod
      → c.link.crypto.sequence_number_o + cost < u32_mod
      → Performed os net lib sound files disk local own regular deliver delivers
          (put (a ∷ path))
          p
          c
  puts p c a path k h room_up room_down =
      let v = view os net lib InSync files local deliver p c in
      elim (Option-cases (local.files.read p.fs (a ∷ path))) [
        | inl absent ↦
            nothing p c a path k h.0
              (absent_idle os lib local a path (after_line p) (local.stat p.fs (a ∷ path)) refl
                absent)
              (perform_absent (a ∷ path) v absent)
        | inr (content, found) ↦ elim (Bool-cases (ltb max_file_size (length content))) [
          | inl large ↦
              nothing p c a path k h.0
                (large_idle os lib local a path content (after_line p)
                  ((regular p.fs (a ∷ path) content found).0) found large)
                (perform_large (a ∷ path) content v found large)
          | inr fits ↦ stored p c a path content k h room_up room_down found fits
        ]
      ]
