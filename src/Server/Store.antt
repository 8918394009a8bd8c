-- ===== src/Server/Store.antt =====
-- STOR: what the upload loop of `cmd_stor` leaves in the file.
use cybersec_proj.Base.{
  ℕ, ◌≢◌, zero, suc, ◌-◌, ◌≤◌, ◌<◌, ◌≡◌, ◌∙◌, refl, sym, ap, Bytes, List, [], ◌++◌, append_assoc,
  append-nil, some, arith, length, length-append, ok, ltb, if◌then◌else◌,
}
use cybersec_proj.Protocol.{buffer_size}
use cybersec_proj.Openssl.{Openssl, IsSound}
use cybersec_proj.Connection.{Socket}
use cybersec_proj.Connection.Stream.{Stream}
use cybersec_proj.Crypto.Channel.{Mark, Ready, SameSender, plaintext, recv-Delivered}
use cybersec_proj.Server
use cybersec_proj.Server.{FileSystem, Client}

-- What the upload relies on: a file opened for writing is empty, and a write at its end extends it.
pub record IsStorage {F : Type 0} (files : FileSystem F) : Type 0 where
  pub create_empty :
      (f g : F) (path : Bytes) → files.create f path ≡ some g → files.read g path ≡ some []
  pub append_end :
      (f : F) (path old bytes : Bytes)
      → files.read f path ≡ some old
      → files.read (files.append f path bytes) path ≡ some (old ++ bytes)

-- The second file system comes from the first by emptying and extending the file at one path.
pub data Wrote {F : Type 0} (files : FileSystem F) (path : Bytes) : F → F → Type 0 where
  here : {f : F} → Wrote files path f f
  create : {f g h : F} → files.create f path ≡ some g → Wrote files path g h → Wrote files path f h
  append :
      {f h : F} (bytes : Bytes)
      → Wrote files path (files.append f path bytes) h
      → Wrote files path f h

-- Work on a file leaves the files at other paths alone.
pub record IsApart {F : Type 0} (files : FileSystem F) : Type 0 where
  pub create_apart :
      (f g : F) (path other : Bytes)
      → files.create f path ≡ some g
      → path ≢ other
      → files.read g other ≡ files.read f other
  pub append_apart :
      (f : F) (path other bytes : Bytes)
      → path ≢ other
      → files.read (files.append f path bytes) other ≡ files.read f other
  pub remove_apart :
      (f : F) (path other : Bytes)
      → path ≢ other
      → files.read (files.remove f path).1 other ≡ files.read f other

pub Wrote-others :
    {F : Type 0} (files : FileSystem F) (apart : IsApart files) (path other : Bytes) {f g : F}
    → Wrote files path f g
    → path ≢ other
    → files.read g other ≡ files.read f other
Wrote-others files apart path other here n = refl
Wrote-others files apart path other (create {f = f} {g = g} e w) n =
    Wrote-others files apart path other w n ∙ apart.create_apart f g path other e n
Wrote-others files apart path other (append {f = f} bytes w) n =
    Wrote-others files apart path other w n ∙ apart.append_apart f path other bytes n

module _ {S C F : Type 0} (os : Socket S) (net : Stream os) (lib : Openssl C)
    {InSync : C → C → Type 0} (sound : IsSound lib InSync) (files : FileSystem F)
    (storage : IsStorage files) where
  open net use {inbox, outbox}

  -- The size asked for in one round.
  abbrev fragment_size : ℕ → ℕ
  fragment_size remaining = if ltb buffer_size remaining then buffer_size else remaining

  fragment_size_pos : (n : ℕ) → 0 < fragment_size (suc n)
  fragment_size_pos n = ground arith

  fragment_size_le : (n : ℕ) → fragment_size (suc n) ≤ suc n
  fragment_size_le n = ground arith

  -- A client about to upload has `remaining` bytes ahead of it. The loop ends after at most
  -- `remaining` rounds, has appended exactly the next `remaining` bytes of the plaintext to the file,
  -- and leaves the bytes after them for the next command; it sends nothing.
  pub stor_loop_lem :
      {mark : Mark C} (fuel remaining : ℕ) (path old : Bytes) (c : Client S C F) (ps : List Bytes)
      → Ready os net lib sound mark c.link ps
      → remaining ≤ fuel
      → remaining ≤ length (plaintext os net lib sound c.link ps)
      → files.read c.fs path ≡ some old
      → (c' : Client S C F) × (left : List Bytes) × (content : Bytes) × (Server.stor_loop os lib
            files fuel remaining path c
          ≡ ok tt c')
        × (files.read c'.fs path ≡ some (old ++ content))
        × (length content ≡ remaining)
        × (plaintext os net lib sound c.link ps
            ≡ content ++ plaintext os net lib sound c'.link left)
        × (outbox c'.link.sock ≡ outbox c.link.sock)
        × Ready os net lib sound mark c'.link left
        × SameSender c.link c'.link
        × (c'.os ≡ c.os)
        × Wrote files path c.fs c'.fs
  unfolding Server.stor_loop Server.recv_body_fragment
  stor_loop_lem fuel zero path old c ps h f m r = (
    c,
    ps,
    [],
    refl,
    r ∙ ap some (sym (append-nil old)),
    refl,
    refl,
    refl,
    h,
    (refl, refl, refl),
    refl,
    here,
  )
  stor_loop_lem zero (suc n) path old c ps h f m r = absurd (omega arith)
  stor_loop_lem (suc fuel) (suc n) path old c ps h f m r =
      let d =
        recv-Delivered os net lib sound c.link ps (fragment_size (suc n)) h (fragment_size_pos n)
          (omega arith) in
      let got : length d.bytes ≤ suc n = omega (arith, d.at_most, fragment_size_le n) in
      let whole = length-append d.bytes (plaintext os net lib sound d.after d.left) in
      let c1 : Client S C F = record c { link = d.after; fs = files.append c.fs path d.bytes } in
      let (c', left, content, r', e, k, s, o, h', w, z, t) =
        stor_loop_lem fuel (suc n - length d.bytes) path (old ++ d.bytes) c1 d.left d.ready
          (omega (arith, d.some_bytes)) (omega (arith, whole, ap (length {A = ℕ}) d.split))
          (storage.append_end c.fs path old d.bytes r) in
      (
        c',
        left,
        d.bytes ++ content,
        rw (d.returns) r',
        e ∙ ap some (append_assoc old d.bytes content),
        omega (arith, length-append d.bytes content),
        d.split
            ∙ ap (◌++◌ d.bytes) s
            ∙ sym (append_assoc d.bytes content (plaintext os net lib sound c'.link left)),
        o ∙ d.silent,
        h',
        (w.0 ∙ d.sender.0, w.1 ∙ d.sender.1, w.2 ∙ d.sender.2),
        z,
        append d.bytes t,
      )
