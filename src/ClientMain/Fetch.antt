-- ===== src/ClientMain/Fetch.antt =====
-- What the loop of `recv_file` leaves in the file.
use cybersec_proj.Base.{
  ℕ, zero, suc, ◌-◌, ◌≤◌, ◌<◌, ◌≡◌, ◌∙◌, refl, sym, ap, Bytes, List, [], ◌++◌, append_assoc,
  append-nil, some, arith, length, length-append, ok, ltb, if◌then◌else◌,
}
use cybersec_proj.Protocol.{buffer_size}
use cybersec_proj.Openssl.{Openssl, IsSound}
use cybersec_proj.Connection.{Socket}
use cybersec_proj.Connection.Stream.{Stream}
use cybersec_proj.Crypto.Channel.{Mark, Ready, SameSender, plaintext, recv-Delivered}
use cybersec_proj.Server.Store.{IsStorage, Wrote, here, append}
use cybersec_proj.ClientMain.Program
use cybersec_proj.ClientMain.Program.{Program, Local}

module _ {S C F : Type 0} (os : Socket S) (net : Stream os) (lib : Openssl C)
    {InSync : C → C → Type 0} (sound : IsSound lib InSync) (local : Local F)
    (storage : IsStorage local.files) where
  open net use {outbox}

  -- The size asked for in one round.
  abbrev fragment_size : ℕ → ℕ
  fragment_size remaining = if ltb buffer_size remaining then buffer_size else remaining

  fragment_size_pos : (n : ℕ) → 0 < fragment_size (suc n)
  fragment_size_pos n = ground arith

  fragment_size_le : (n : ℕ) → fragment_size (suc n) ≤ suc n
  fragment_size_le n = ground arith

  pub recv_file_loop_lem :
      {mark : Mark C} (fuel remaining : ℕ) (path old : Bytes) (p : Program S C F) (ps : List Bytes)
      → Ready os net lib sound mark p.link ps
      → remaining ≤ fuel
      → remaining ≤ length (plaintext os net lib sound p.link ps)
      → local.files.read p.fs path ≡ some old
      → (p' : Program S C F) × (left : List Bytes) × (content : Bytes) × (Program.recv_file_loop os
            lib local fuel remaining path p
          ≡ ok tt p')
        × (local.files.read p'.fs path ≡ some (old ++ content))
        × (length content ≡ remaining)
        × (plaintext os net lib sound p.link ps
            ≡ content ++ plaintext os net lib sound p'.link left)
        × (outbox p'.link.sock ≡ outbox p.link.sock)
        × Ready os net lib sound mark p'.link left
        × SameSender p.link p'.link
        × Wrote local.files path p.fs p'.fs
  unfolding Program.recv_file_loop Program.recv_fragment
  recv_file_loop_lem fuel zero path old p ps h f m r = (
    p,
    ps,
    [],
    refl,
    r ∙ ap some (sym (append-nil old)),
    refl,
    refl,
    refl,
    h,
    (refl, refl, refl),
    here,
  )
  recv_file_loop_lem zero (suc n) path old p ps h f m r = absurd (omega arith)
  recv_file_loop_lem (suc fuel) (suc n) path old p ps h f m r =
      let d =
        recv-Delivered os net lib sound p.link ps (fragment_size (suc n)) h (fragment_size_pos n)
          (omega arith) in
      let got : length d.bytes ≤ suc n = omega (arith, d.at_most, fragment_size_le n) in
      let whole = length-append d.bytes (plaintext os net lib sound d.after d.left) in
      let p1 : Program S C F = record p {
        link = d.after;
        fs = local.files.append p.fs path d.bytes;
      } in
      let (p', left, content, r', e, k, s, o, h', w, t) =
        recv_file_loop_lem fuel (suc n - length d.bytes) path (old ++ d.bytes) p1 d.left d.ready
          (omega (arith, d.some_bytes)) (omega (arith, whole, ap (length {A = ℕ}) d.split))
          (storage.append_end p.fs path old d.bytes r) in
      (
        p',
        left,
        d.bytes ++ content,
        rw d.returns r',
        e ∙ ap some (append_assoc old d.bytes content),
        omega (arith, length-append d.bytes content),
        d.split
            ∙ ap (◌++◌ d.bytes) s
            ∙ sym (append_assoc d.bytes content (plaintext os net lib sound p'.link left)),
        o ∙ d.silent,
        h',
        (w.0 ∙ d.sender.0, w.1 ∙ d.sender.1, w.2 ∙ d.sender.2),
        append d.bytes t,
      )
