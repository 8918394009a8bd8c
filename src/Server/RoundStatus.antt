-- ===== src/Server/RoundStatus.antt =====
-- One round of `execute` for the commands that one status answers: DELE, QUIT, and RETR and STOR of a
-- file that cannot be opened.
use cybersec_proj.Base.{
  ℕ, ◌≤◌, ◌≡◌, ◌∙◌, refl, Bool, true, false, Bytes, [], ◌∷◌, ◌++◌, arith, none, bind, return, codes,
  bytes_eq, if◌then◌else◌,
}
use cybersec_proj.Base.Int.{pos, exceeds}
use cybersec_proj.Protocol.{parola, ok_status, bad_file, max_file_size}
use cybersec_proj.Openssl.{Openssl}
use cybersec_proj.Connection.{Socket}
use cybersec_proj.Crypto.{Link}
use cybersec_proj.Text.{Istream, from_text, int64_max}
use cybersec_proj.Text.Extract.{extract_word, extract_skip}
use cybersec_proj.Text.Plain.{IsPlainText}
use cybersec_proj.ClientMain.Program.{retr_line, stor_line}
use cybersec_proj.ClientMain.Response.{IsReply}
use cybersec_proj.ClientMain.Replies.{IsReply-after, empty_line}
use cybersec_proj.Server
use cybersec_proj.Server.{FileSystem, Client, full_path}
use cybersec_proj.Server.Round.{parola-IsWord, parola-IsPlainText}
use cybersec_proj.Server.RoundStor.{stor_obeyed}

-- The command of `cmd_dele` and that of `cmd_quit`.
abbrev pub dele_line : Bytes → Bytes
dele_line filename = codes "DELE " ++ (filename ++ (b'\n' ∷ b'\n' ∷ []))

abbrev pub quit_line : Bytes
quit_line = codes "QUIT" ++ (b'\n' ∷ b'\n' ∷ [])

dele_word : IsPlainText (codes "DELE ")
dele_word = (
  omega arith,
  omega arith,
  (
    omega arith,
    omega arith,
    (omega arith, omega arith, (omega arith, omega arith, (omega arith, omega arith, tt))),
  ),
)

pub dele_line-IsReply : (name : Bytes) → parola name ≡ true → IsReply 0 (dele_line name)
dele_line-IsReply name h =
    IsReply-after 0 (codes "DELE ") (name ++ (b'\n' ∷ b'\n' ∷ [])) dele_word (omega arith)
      (λ c n. IsReply-after c name (b'\n' ∷ b'\n' ∷ []) (parola-IsPlainText name h) n empty_line)

quit_word : IsPlainText (codes "QUIT")
quit_word = (
  omega arith,
  omega arith,
  (omega arith, omega arith, (omega arith, omega arith, (omega arith, omega arith, tt))),
)

pub quit_line-IsReply : IsReply 0 quit_line
quit_line-IsReply = IsReply-after 0 (codes "QUIT") _ quit_word (omega arith) empty_line

-- The status of DELE.
abbrev pub dele_status : Bool → ℕ
dele_status done = if done then ok_status else bad_file

pub dele_status_small : (done : Bool) → dele_status done ≤ int64_max
dele_status_small true = omega arith
dele_status_small false = omega arith

module _ {S C F : Type 0} (os : Socket S) (lib : Openssl C) (files : FileSystem F) where
  -- What the server does with a command: it changes its files to `g`, answers `status`, and goes on or
  -- not.
  abbrev pub Tells : Bytes → ℕ → Bool → Client S C F → F → Type 0
  Tells line status more c g =
      (l : Link S C)
      → (is' : Istream) × (bind (Server.read_word (record c { link = l; is = from_text line }))
            (Server.obey os lib files)
          ≡ bind (Server.reply os lib files status (record c { link = l; is = is'; fs = g }))
              (λ _. return more))

  dele_named_tells :
      (name : Bytes) (done : Bool) (c : Client S C F)
      → parola name ≡ true
      → (files.remove c.fs (full_path name)).0 ≡ done
      → Server.dele_named os lib files name c
        ≡ Server.reply os lib files
            (dele_status done)
            (record c { fs = (files.remove c.fs (full_path name)).1 })
  unfolding Server.dele_named
  dele_named_tells name true c h e = rw (h, e) refl
  dele_named_tells name false c h e = rw (h, e) refl

  pub dele_obeyed :
      (x : ℕ) (name : Bytes) (c : Client S C F)
      → parola (x ∷ name) ≡ true
      → Tells
          (dele_line (x ∷ name))
          (dele_status ((files.remove c.fs (full_path (x ∷ name))).0))
          true
          c
          ((files.remove c.fs (full_path (x ∷ name))).1)
  unfolding Server.read_word Server.obey Server.dispatch Server.cmd_dele bytes_eq
  dele_obeyed x name c h l = (
    from_text (b'\n' ∷ b'\n' ∷ []),
    rw
        (
          extract_word b'D' (codes "ELE") b' ' ((x ∷ name) ++ (b'\n' ∷ b'\n' ∷ []))
              (refl, (refl, (refl, (refl, tt)))) refl,
          extract_skip b' ' ((x ∷ name) ++ (b'\n' ∷ b'\n' ∷ [])) refl,
          extract_word x name b'\n' (b'\n' ∷ []) (parola-IsWord (x ∷ name) h) refl,
          dele_named_tells (x ∷ name) ((files.remove c.fs (full_path (x ∷ name))).0)
              (record c { link = l; is = from_text (b'\n' ∷ b'\n' ∷ []) }) h refl,
        )
        refl,
  )

  pub quit_obeyed : (c : Client S C F) → Tells quit_line ok_status false c c.fs
  unfolding Server.read_word Server.obey Server.dispatch Server.cmd_quit bytes_eq
  quit_obeyed c l = (
    from_text (b'\n' ∷ b'\n' ∷ []),
    rw (extract_word b'Q' (codes "UIT") b'\n' (b'\n' ∷ []) (refl, (refl, (refl, (refl, tt)))) refl)
        refl,
  )

  pub retr_missing :
      (x : ℕ) (name : Bytes) (c : Client S C F)
      → parola (x ∷ name) ≡ true
      → files.read c.fs (full_path (x ∷ name)) ≡ none
      → Tells (retr_line (x ∷ name)) bad_file true c c.fs
  unfolding Server.read_word Server.obey Server.dispatch Server.cmd_retr Server.retr_named retr_line
      bytes_eq
  retr_missing x name c h e l = (
    from_text (b'\n' ∷ b'\n' ∷ []),
    rw
        (
          extract_word b'R' (codes "ETR") b' ' ((x ∷ name) ++ (b'\n' ∷ b'\n' ∷ []))
              (refl, (refl, (refl, (refl, tt)))) refl,
          extract_skip b' ' ((x ∷ name) ++ (b'\n' ∷ b'\n' ∷ [])) refl,
          extract_word x name b'\n' (b'\n' ∷ []) (parola-IsWord (x ∷ name) h) refl,
          h,
          e,
        )
        refl,
  )

  stor_sized_closed :
      (name : Bytes) (size : ℕ) (c : Client S C F)
      → size ≤ max_file_size
      → files.create c.fs (full_path name) ≡ none
      → Server.stor_sized os lib files name (pos size) c ≡ Server.reply os lib files bad_file c
  unfolding Server.stor_sized
  stor_sized_closed name size c small e =
      let fits : exceeds (pos size) max_file_size ≡ false = ground arith in rw (fits, e) refl

  pub stor_closed :
      (x : ℕ) (name : Bytes) (size : ℕ) (c : Client S C F)
      → parola (x ∷ name) ≡ true
      → size ≤ max_file_size
      → files.create c.fs (full_path (x ∷ name)) ≡ none
      → Tells (stor_line (x ∷ name) size) bad_file true c c.fs
  stor_closed x name size c h small e l = (
    from_text (b'\n' ∷ b'\n' ∷ []),
    stor_obeyed os lib files x name size (record c { link = l }) h (omega arith)
        ∙ rw
            (stor_sized_closed (x ∷ name) size
              (record c { link = l; is = from_text (b'\n' ∷ b'\n' ∷ []) }) small e)
            refl,
  )
