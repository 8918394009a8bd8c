-- ===== src/Transfer/Conversation/Entered.antt =====
-- From a line of the client's input to its command.
use cybersec_proj.Base.{
  ℕ, ◌≡◌, ◌∙◌, refl, ap, true, Bool, Bytes, ◌∷◌, M, Outcome, ok, throws, fault, bind, defined,
}
use cybersec_proj.Text.Extract.{IsWord}
use cybersec_proj.Openssl.{Openssl}
use cybersec_proj.Connection.{Socket}
use cybersec_proj.Connection.Stream.{Stream}
use cybersec_proj.ClientMain.Program
use cybersec_proj.ClientMain.Program.{Program, Local}
use cybersec_proj.ClientMain.Typed.{read_up, get_typed, put_typed, rm_typed}
use cybersec_proj.Server.{FileSystem, Client}
use cybersec_proj.Server.Round.{parola-IsWord}
use cybersec_proj.Protocol.{parola}
use cybersec_proj.Transfer.Joint.{InSession}
use cybersec_proj.Transfer.Exchange.{Exchange}
use cybersec_proj.Transfer.Conversation.{Request, get, put, delete, entered}

went_on :
    {S : Type 0} (o : Outcome S (Unit {0}))
    → bind (bind o (λ _ s. ok true s)) (λ more s. defined more s) ≡ o
went_on (ok a s) = refl
went_on (throws e s) = refl
went_on fault = refl

-- The line is read; nothing else has changed.
abbrev pub after_line : {S C F : Type 0} → Program S C F → Program S C F
after_line p = record p { is = read_up }

pub after_line-InSession :
    {S C F : Type 0} (InSync : C → C → Type 0) (p : Program S C F) (c : Client S C F)
    → InSession InSync p c
    → InSession InSync (after_line p) c
after_line-InSession InSync p c k = record {
  up = k.up;
  down = k.down;
  key_size = k.key_size;
  same_key = k.same_key;
  same_up = k.same_up;
  same_down = k.same_down;
  client_valid = k.client_valid;
  client_read = k.client_read;
  server_valid = k.server_valid;
  server_read = k.server_read;
  server_written = k.server_written;
}

module _ {S C F : Type 0} (os : Socket S) (net : Stream os) (lib : Openssl C)
    (InSync : C → C → Type 0) (files : FileSystem F) (local : Local F)
    (deliver : Bytes → S → S) where
  pub entered-get :
      (x : ℕ) (name : Bytes)
      → parola (x ∷ name) ≡ true
      → (p : Program S C F)
      → entered os net lib InSync files local deliver (get (x ∷ name)) p
        ≡ Program.cmd_retr os lib local (x ∷ name) (after_line p)
  entered-get x name h p =
      ap (λ (o : Outcome (Program S C F) Bool). bind o (λ more s. defined more s))
        (get_typed os lib local x name p (parola-IsWord (x ∷ name) h))
      ∙ went_on _

  pub entered-put :
      (a : ℕ) (path : Bytes)
      → IsWord (a ∷ path)
      → (p : Program S C F)
      → entered os net lib InSync files local deliver (put (a ∷ path)) p
        ≡ Program.cmd_stor os lib local (a ∷ path) (after_line p)
  entered-put a path h p =
      ap (λ (o : Outcome (Program S C F) Bool). bind o (λ more s. defined more s))
        (put_typed os lib local a path p h)
      ∙ went_on _

  pub entered-delete :
      (x : ℕ) (name : Bytes)
      → parola (x ∷ name) ≡ true
      → (p : Program S C F)
      → entered os net lib InSync files local deliver (delete (x ∷ name)) p
        ≡ Program.cmd_dele os lib local (x ∷ name) (after_line p)
  entered-delete x name h p =
      ap (λ (o : Outcome (Program S C F) Bool). bind o (λ more s. defined more s))
        (rm_typed os lib local x name p (parola-IsWord (x ∷ name) h))
      ∙ went_on _

  -- The exchange of a command is that of its line.
  pub entered-Exchange :
      (r : Request) {p p' : Program S C F} {c c' : Client S C F}
      {cmd : M (Program S C F) (Unit {0})}
      → ((s : Program S C F)
          → entered os net lib InSync files local deliver r s ≡ cmd (after_line s))
      → Exchange os net lib InSync files deliver cmd true (after_line p) c p' c'
      → Exchange os net lib InSync files deliver
          (entered os net lib InSync files local deliver r)
          true
          p
          c
          p'
          c'
  entered-Exchange r same e = record {
    up = e.up;
    down = e.down;
    client = same _ ∙ e.client;
    server = e.server;
    client_sends = e.client_sends;
    server_sends = e.server_sends;
    session = e.session;
  }
