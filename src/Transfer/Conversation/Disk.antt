-- ===== src/Transfer/Conversation/Disk.antt =====
-- A disk as the map from paths to contents that can be read.
use cybersec_proj.Base.Int.{pos}
use cybersec_proj.Base.{
  ◌≡◌, ◌≢◌, ◌∙◌, sym, ap, fun_ext, false, Bool-cases, arith, inl, inr, Bytes, Option, none, some,
  bytes_eq, bytes_eq_refl, bytes_eq→eq, length,
}
use cybersec_proj.Server.{FileSystem}
use cybersec_proj.Server.Store.{IsStorage, IsApart, Wrote, Wrote-others}
use cybersec_proj.Transfer.Conversation.{update}

-- A flat disk of regular files with room, on which the process may do everything: every path can be
-- opened for writing, different paths are different files, `tellg` gives the size of each, and after a removal nothing can be read at the path.
pub record IsDisk {F : Type 0} (files : FileSystem F) : Type 0 where
  pub storage : IsStorage files
  pub apart : IsApart files
  pub opens : (f : F) (path : Bytes) → (g : F) × (files.create f path ≡ some g)
  pub tells :
      (f : F) (path content : Bytes)
      → files.read f path ≡ some content
      → files.tell f path ≡ pos (length content)
  pub removes : (f : F) (path : Bytes) → files.read (files.remove f path).1 path ≡ none

bytes_differ : (xs ys : Bytes) → bytes_eq xs ys ≡ false → xs ≢ ys
bytes_differ xs ys e same = ground (arith, sym (bytes_eq_refl xs) ∙ ap (bytes_eq xs) same ∙ e)

module _ {F : Type 0} (files : FileSystem F) where
  -- Where one path has a new content and the others keep theirs, the map is updated.
  updated :
      (f g : F) (path : Bytes) (new : Option Bytes)
      → files.read g path ≡ new
      → ((other : Bytes) → path ≢ other → files.read g other ≡ files.read f other)
      → (λ (p : Bytes). files.read g p) ≡ update (λ p. files.read f p) path new
  updated f g path new here others = fun_ext (λ other. elim (Bool-cases (bytes_eq path other)) [
    | inl e ↦ rw (e, sym (bytes_eq→eq path other e)) here
    | inr e ↦ rw e (others other (bytes_differ path other e))
  ])

  pub Wrote-update :
      (disk : IsDisk files) (f g : F) (path content : Bytes)
      → files.read g path ≡ some content
      → Wrote files path f g
      → (λ (p : Bytes). files.read g p) ≡ update (λ p. files.read f p) path (some content)
  Wrote-update disk f g path content stored w =
      updated f g path (some content) stored
        (λ other n. Wrote-others files disk.apart path other w n)

  pub remove-update :
      (disk : IsDisk files) (f : F) (path : Bytes)
      → (λ (p : Bytes). files.read (files.remove f path).1 p)
        ≡ update (λ p. files.read f p) path none
  remove-update disk f path =
      updated f ((files.remove f path).1) path none (disk.removes f path)
        (λ other n. disk.apart.remove_apart f path other n)
