-- ===== src/Transfer/Conversation/Steps.antt =====
-- Each command by itself does what `perform` says.
use cybersec_proj.Base.Int.{pos}
use cybersec_proj.Base.{
  ℕ, ◌+◌, ◌<◌, ◌≤◌, ◌≡◌, ◌∙◌, refl, sym, ap, true, false, Bytes, ◌∷◌, ◌++◌, Option, none, some,
  arith, length, ltb,
}
use cybersec_proj.Protocol.{max_file_size}
use cybersec_proj.Word.{u32_mod}
use cybersec_proj.Openssl.{Openssl, IsSound}
use cybersec_proj.Connection.{Socket}
use cybersec_proj.Connection.Stream.{Stream}
use cybersec_proj.ClientMain.Program.{Program, Local, client_root, basename}
use cybersec_proj.Server.{FileSystem, Client, full_path}
use cybersec_proj.Transfer.Joint.{InSession}
use cybersec_proj.Transfer.Exchange.{Delivers}
use cybersec_proj.Transfer.Exchange.Get.{get-Exchange}
use cybersec_proj.Transfer.Exchange.Status.{dele-Exchange, missing-Exchange}
use cybersec_proj.Transfer.Conversation.{
  Request, get, put, delete, View, update, receive, store, perform, IsRequest, cost, contents, view,
  Turn, exchanged,
}
use cybersec_proj.Transfer.Conversation.Entered.{
  after_line, after_line-InSession, entered-get, entered-delete, entered-Exchange,
}
use cybersec_proj.Transfer.Conversation.Disk.{IsDisk, Wrote-update, remove-update}

-- Views are equal where both maps are.
pub view_eq :
    {r r' l l' : Bytes → Option Bytes}
    → r ≡ r'
    → l ≡ l'
    → ◌≡◌ {A = View} (record { remote = r; local = l }) (record { remote = r'; local = l' })
view_eq a b = λ i. record { remote = a i; local = b i }

-- What `perform` does, by what can be read.
perform_missing :
    (name : Bytes) (v : View) → v.remote (full_path name) ≡ none → perform (get name) v ≡ v
unfolding perform
perform_missing name v e = ap (λ (o : Option Bytes). receive name o v) e

perform_got :
    (name content : Bytes) (v : View)
    → v.remote (full_path name) ≡ some content
    → perform (get name) v
      ≡ record v { local = update v.local (client_root ++ name) (some content) }
unfolding perform
perform_got name content v e = ap (λ (o : Option Bytes). receive name o v) e

pub perform_absent : (path : Bytes) (v : View) → v.local path ≡ none → perform (put path) v ≡ v
unfolding perform
perform_absent path v e = ap (λ (o : Option Bytes). store path o v) e

pub perform_large :
    (path content : Bytes) (v : View)
    → v.local path ≡ some content
    → ltb max_file_size (length content) ≡ true
    → perform (put path) v ≡ v
unfolding perform
perform_large path content v e large = ap (λ (o : Option Bytes). store path o v) e ∙ rw large refl

pub perform_stored :
    (path content : Bytes) (v : View)
    → v.local path ≡ some content
    → ltb max_file_size (length content) ≡ false
    → perform (put path) v
      ≡ record v { remote = update v.remote (full_path (basename path)) (some content) }
unfolding perform
perform_stored path content v e small = ap (λ (o : Option Bytes). store path o v) e ∙ rw small refl

perform_deleted :
    (name : Bytes) (v : View)
    → perform (delete name) v ≡ record v { remote = update v.remote (full_path name) none }
unfolding perform
perform_deleted name v = refl

module _ {S C F : Type 0} (os : Socket S) (net : Stream os) (lib : Openssl C)
    {InSync : C → C → Type 0} (sound : IsSound lib InSync) (files : FileSystem F)
    (disk : IsDisk files) (local : Local F) (own : IsDisk local.files)
    (regular : (f : F) (path content : Bytes)
      → local.files.read f path ≡ some content
      → (local.stat f path ≡ true) × (local.reopen f path ≡ some content))
    (deliver : Bytes → S → S) (delivers : Delivers net deliver) where
  -- The command is run: the ends stand in one session again, both disks hold what `perform` says, and
  -- the sequence numbers have grown by at most `cost`.
  pub record Performed (r : Request) (p : Program S C F) (c : Client S C F) : Type 0 where
    pub program : Program S C F
    pub client : Client S C F
    pub turn : Turn os net lib InSync files local deliver r p c program client
    pub session : InSession InSync program client
    pub shows :
        view os net lib InSync files local deliver program client
        ≡ perform r (view os net lib InSync files local deliver p c)
    pub up : program.link.crypto.sequence_number_o ≤ p.link.crypto.sequence_number_o + cost
    pub down : client.link.crypto.sequence_number_o ≤ c.link.crypto.sequence_number_o + cost

  pub got :
      (p : Program S C F) (c : Client S C F) (x : ℕ) (name content : Bytes)
      → InSession InSync p c
      → IsRequest (get (x ∷ name))
      → length content ≤ max_file_size
      → p.link.crypto.sequence_number_o + cost < u32_mod
      → c.link.crypto.sequence_number_o + cost < u32_mod
      → files.read c.fs (full_path (x ∷ name)) ≡ some content
      → files.tell c.fs (full_path (x ∷ name)) ≡ pos (length content)
      → Performed (get (x ∷ name)) p c
  got p c x name content k (allowed, short) small room_up room_down found sized =
      let (g, opened) = own.opens p.fs (client_root ++ (x ∷ name)) in
      let (p', c', e, stored, wrote, kept, up, down) =
        get-Exchange os net lib sound files local own.storage deliver delivers (after_line p) c x
          name content g (after_line-InSession InSync p c k) allowed short (omega arith)
          (omega arith) found sized opened in
      record {
        program = p';
        client = c';
        turn = exchanged (
            entered-Exchange os net lib InSync files local deliver (get (x ∷ name))
              (entered-get os net lib InSync files local deliver x name allowed) e);
        session = e.session;
        shows =
            view_eq (ap (contents files) kept) (
              Wrote-update local.files own p.fs p'.fs (client_root ++ (x ∷ name)) content stored
                wrote)
            ∙ sym (
                perform_got (x ∷ name) content (view os net lib InSync files local deliver p c)
                  found);
        up = omega (arith, up);
        down = omega (arith, down);
      }

  pub missed :
      (p : Program S C F) (c : Client S C F) (x : ℕ) (name : Bytes)
      → InSession InSync p c
      → IsRequest (get (x ∷ name))
      → p.link.crypto.sequence_number_o + cost < u32_mod
      → c.link.crypto.sequence_number_o + cost < u32_mod
      → files.read c.fs (full_path (x ∷ name)) ≡ none
      → Performed (get (x ∷ name)) p c
  missed p c x name k (allowed, short) room_up room_down missing =
      let (p', c', e, same, kept, up, down) =
        missing-Exchange os net lib sound files local deliver delivers (after_line p) c x name
          (after_line-InSession InSync p c k) allowed short (omega arith) (omega arith) missing in
      record {
        program = p';
        client = c';
        turn = exchanged (
            entered-Exchange os net lib InSync files local deliver (get (x ∷ name))
              (entered-get os net lib InSync files local deliver x name allowed) e);
        session = e.session;
        shows =
            view_eq (ap (contents files) kept) (ap (contents local.files) same)
            ∙ sym (
                perform_missing (x ∷ name) (view os net lib InSync files local deliver p c)
                  missing);
        up = omega (arith, up);
        down = omega (arith, down);
      }

  pub deleted :
      (p : Program S C F) (c : Client S C F) (x : ℕ) (name : Bytes)
      → InSession InSync p c
      → IsRequest (delete (x ∷ name))
      → p.link.crypto.sequence_number_o + cost < u32_mod
      → c.link.crypto.sequence_number_o + cost < u32_mod
      → Performed (delete (x ∷ name)) p c
  deleted p c x name k (allowed, short) room_up room_down =
      let (p', c', e, same, kept, up, down) =
        dele-Exchange os net lib sound files local deliver delivers (after_line p) c x name
          (after_line-InSession InSync p c k) allowed short (omega arith) (omega arith) in
      record {
        program = p';
        client = c';
        turn = exchanged (
            entered-Exchange os net lib InSync files local deliver (delete (x ∷ name))
              (entered-delete os net lib InSync files local deliver x name allowed) e);
        session = e.session;
        shows =
            view_eq
              (ap (contents files) kept ∙ remove-update files disk c.fs (full_path (x ∷ name)))
              (ap (contents local.files) same)
            ∙ sym (perform_deleted (x ∷ name) (view os net lib InSync files local deliver p c));
        up = omega (arith, up);
        down = omega (arith, down);
      }
