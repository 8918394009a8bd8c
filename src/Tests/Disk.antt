-- ===== src/Tests/Disk.antt =====
-- A small disk for the examples: the names in the one directory, and the content at each path.
use cybersec_proj.Base.Int.{ℤ, pos}
use cybersec_proj.Base.{
  ◌≡◌, refl, sym, ap, ◌∙◌, true, Bytes, List, [], ◌++◌, Option, some, none, bytes_eq, bytes_eq_refl,
  bytes_eq→eq, Bool, Bool-cases, inl, inr, ◌≢◌, if◌then◌else◌, length,
}
use cybersec_proj.Server.{FileSystem}
use cybersec_proj.Server.Store.{IsStorage, IsApart}
use cybersec_proj.Transfer.Conversation.Disk.{IsDisk}

pub record Disk : Type 0 where
  pub names : List Bytes
  pub content : Bytes → Option Bytes

abbrev pub set : Disk → Bytes → Option Bytes → Disk
set d path new = record d { content = λ p. if bytes_eq p path then new else d.content p }

abbrev pub extend : Option Bytes → Bytes → Option Bytes
extend none bytes = none
extend (some old) bytes = some (old ++ bytes)

abbrev pub told : Option Bytes → ℤ
told none = pos 0
told (some bytes) = pos (length bytes)

abbrev pub disk : FileSystem Disk
disk = record {
  remove = λ d path. (true, set d path none);
  list = λ d path. some d.names;
  read = λ d path. d.content path;
  tell = λ d path. told (d.content path);
  create = λ d path. some (set d path (some []));
  append = λ d path bytes. set d path (extend (d.content path) bytes);
}

pub disk-IsStorage : IsStorage disk
disk-IsStorage = record {
  create_empty = λ f g path e.
      let same : set f path (some []) ≡ g = cc in
      ap (λ (d : Disk). d.content path) (sym same) ∙ rw (bytes_eq_refl path) refl;
  append_end = λ f path old bytes e. rw (bytes_eq_refl path, e) refl;
}

set_apart :
    (d : Disk) (path other : Bytes) (new : Option Bytes)
    → path ≢ other
    → (set d path new).content other ≡ d.content other
set_apart d path other new n = elim (Bool-cases (bytes_eq other path)) [
  | inl e ↦ absurd (n (sym (bytes_eq→eq other path e)))
  | inr e ↦ ap (λ (b : Bool). if b then new else d.content other) e
]

pub disk-IsApart : IsApart disk
disk-IsApart = record {
  create_apart = λ f g path other e n.
      let same : set f path (some []) ≡ g = cc in
      ap (λ (d : Disk). d.content other) (sym same) ∙ set_apart f path other (some []) n;
  append_apart = λ f path other bytes n. set_apart f path other (extend (f.content path) bytes) n;
  remove_apart = λ f path other n. set_apart f path other none n;
}

pub disk-IsDisk : IsDisk disk
disk-IsDisk = record {
  storage = disk-IsStorage;
  apart = disk-IsApart;
  opens = λ f path. (set f path (some []), refl);
  tells = λ f path bytes e. ap told e;
  removes = λ f path. rw (bytes_eq_refl path) refl;
}
