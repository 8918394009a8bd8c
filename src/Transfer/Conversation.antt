-- ===== src/Transfer/Conversation.antt =====
-- A row of commands: what the two disks hold after it, and how the programs run it.
pub mod Disk
pub mod Entered
pub mod Steps
pub mod Puts
pub mod Refine
use cybersec_proj.Base.{
  ℕ, ◌+◌, ◌*◌, ◌/◌, ◌<◌, ◌≤◌, ◌≡◌, Bytes, List, [], ◌∷◌, ◌++◌, Option, none, some, length, ok, M,
  ◌>>=◌, defined, codes, true, Bool, if◌then◌else◌, ltb, bytes_eq,
}
use cybersec_proj.Protocol.{buffer_size, parola, max_file_size}
use cybersec_proj.Text.Extract.{IsWord}
use cybersec_proj.Openssl.{Openssl}
use cybersec_proj.Connection.{Socket}
use cybersec_proj.Connection.Stream.{Stream}
use cybersec_proj.ClientMain.Program
use cybersec_proj.ClientMain.Program.{Program, Local, client_root, retr_line, stor_line, basename}
use cybersec_proj.Server.{FileSystem, Client, full_path}
use cybersec_proj.Server.RoundStatus.{dele_line}
use cybersec_proj.Transfer.Exchange.{Exchange}

-- The commands on files.
pub data Request : Type 0 where
  get : Bytes → Request
  put : Bytes → Request
  delete : Bytes → Request

-- The line of the input for each.
abbrev pub line_of : Request → Bytes
line_of (get name) = codes "get " ++ name
line_of (put path) = codes "put " ++ path
line_of (delete name) = codes "rm " ++ name

-- What can be read on the two disks, by path.
pub record View : Type 0 where
  pub remote : Bytes → Option Bytes
  pub local : Bytes → Option Bytes

abbrev pub update : (Bytes → Option Bytes) → Bytes → Option Bytes → Bytes → Option Bytes
update m path new other = if bytes_eq path other then new else m other

-- What the two copies do with what can be read at their source.
abbrev pub receive : Bytes → Option Bytes → View → View
receive name none v = v
receive name (some content) v = record v {
  local = update v.local (client_root ++ name) (some content);
}

abbrev pub store : Bytes → Option Bytes → View → View
store path none v = v
store path (some content) v =
    if ltb max_file_size (length content)
    then v
    else record v { remote = update v.remote (full_path (basename path)) (some content) }

-- What a command is for: a copy of one file, whole, or its removal, and nothing else.
unfoldable pub perform : Request → View → View
perform (get name) v = receive name (v.remote (full_path name)) v
perform (put path) v = store path (v.local path) v
perform (delete name) v = record v { remote = update v.remote (full_path name) none }

unfoldable pub perform_all : List Request → View → View
perform_all [] v = v
perform_all (r ∷ rs) v = perform_all rs (perform r v)

-- A name that both ends allow, whose command fits a buffer; a path has no white space in it.
abbrev pub IsName : (Bytes → Bytes) → Bytes → Type 0
IsName line [] = ⊥
IsName line (x ∷ name) = (parola (x ∷ name) ≡ true) × (length (line (x ∷ name)) < buffer_size)

abbrev pub IsRequest : Request → Type 0
IsRequest (get name) = IsName retr_line name
IsRequest (put []) = ⊥
IsRequest (put (a ∷ path)) =
    IsWord (a ∷ path)
    × ((size : ℕ)
        → size ≤ max_file_size
        → IsName (λ name. stor_line name size) (basename (a ∷ path)))
IsRequest (delete name) = IsName dele_line name

-- No file of the server is longer than MAX_FILE_SIZE.
abbrev pub IsBounded : View → Type 0
IsBounded v = (path content : Bytes) → v.remote path ≡ some content → length content ≤ max_file_size

-- The most that one command adds to a sequence number.
abbrev pub cost : ℕ
cost = 2 * (2 + (max_file_size + 4095) / 4096)

abbrev pub contents : {F : Type 0} → FileSystem F → F → Bytes → Option Bytes
contents files f path = files.read f path

module _ {S C F : Type 0} (os : Socket S) (net : Stream os) (lib : Openssl C)
    (InSync : C → C → Type 0) (files : FileSystem F) (local : Local F)
    (deliver : Bytes → S → S) where
  -- The disks of the server and of the client, and those of two programs.
  abbrev pub disks : F → F → View
  disks f g = record { remote = contents files f; local = contents local.files g }

  abbrev pub view : Program S C F → Client S C F → View
  view p c = disks c.fs p.fs

  -- What the client does with the line of a command, and reads on.
  abbrev pub entered : Request → M (Program S C F) (Unit {0})
  entered r = do more ← Program.take_line os lib local (line_of r); defined more

  -- One command: the ends exchange messages, or the client finds no file that it may send and does
  -- nothing.
  pub data Turn
      : Request → Program S C F → Client S C F → Program S C F → Client S C F → Type 0 where
    exchanged :
        {r : Request} {p p' : Program S C F} {c c' : Client S C F}
        → Exchange os net lib InSync files deliver (entered r) true p c p' c'
        → Turn r p c p' c'
    idle :
        {r : Request} {p p' : Program S C F} {c : Client S C F}
        → entered r p ≡ ok tt p'
        → Turn r p c p' c

  pub data Conversation
      : List Request → Program S C F → Client S C F → Program S C F → Client S C F → Type 0 where
    done : {p : Program S C F} {c : Client S C F} → Conversation [] p c p c
    turn :
        {r : Request} {rs : List Request} {p p1 p2 : Program S C F} {c c1 c2 : Client S C F}
        → Turn r p c p1 c1
        → Conversation rs p1 c1 p2 c2
        → Conversation (r ∷ rs) p c p2 c2
