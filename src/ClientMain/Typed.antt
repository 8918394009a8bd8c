-- ===== src/ClientMain/Typed.antt =====
-- What the client does with a line of its input that is a command and a file.
use cybersec_proj.Base.{
  ℕ, arith, length, ◌==◌, ◌≡◌, refl, true, false, Bytes, [], ◌∷◌, ◌++◌, bind, return, codes,
  bytes_eq,
}
use cybersec_proj.Text.{Istream}
use cybersec_proj.Text.Extract.{IsWord, extract_word, extract_skip, extract_last}
use cybersec_proj.Openssl.{Openssl}
use cybersec_proj.Connection.{Socket}
use cybersec_proj.ClientMain
use cybersec_proj.ClientMain.{CommandType}
use cybersec_proj.ClientMain.Program
use cybersec_proj.ClientMain.Program.{Program, Local}

-- The stream once the line is read.
abbrev pub read_up : Istream
read_up = record { unread = []; good = false }

module _ {S C F : Type 0} (os : Socket S) (lib : Openssl C) (local : Local F) where
  pub get_typed :
      (x : ℕ) (name : Bytes) (p : Program S C F)
      → IsWord (x ∷ name)
      → Program.take_line os lib local (codes "get " ++ (x ∷ name)) p
        ≡ bind
            (Program.cmd_retr os lib local (x ∷ name) (record p { is = read_up }))
            (λ _. return true)
  unfolding Program.take_line Program.parse_cmd Program.read_word Program.run_command
      ClientMain.str2cmd bytes_eq
  get_typed x name p h =
      let some_line : (length (codes "get " ++ (x ∷ name)) == 0) ≡ false = ground arith in
      rw
        (
          some_line,
          extract_word b'g' (codes "et") b' ' (x ∷ name) (refl, (refl, (refl, tt))) refl,
          extract_skip b' ' (x ∷ name) refl,
          extract_last x name h,
        )
        refl

  pub put_typed :
      (x : ℕ) (name : Bytes) (p : Program S C F)
      → IsWord (x ∷ name)
      → Program.take_line os lib local (codes "put " ++ (x ∷ name)) p
        ≡ bind
            (Program.cmd_stor os lib local (x ∷ name) (record p { is = read_up }))
            (λ _. return true)
  unfolding Program.take_line Program.parse_cmd Program.read_word Program.run_command
      ClientMain.str2cmd bytes_eq
  put_typed x name p h =
      let some_line : (length (codes "put " ++ (x ∷ name)) == 0) ≡ false = ground arith in
      rw
        (
          some_line,
          extract_word b'p' (codes "ut") b' ' (x ∷ name) (refl, (refl, (refl, tt))) refl,
          extract_skip b' ' (x ∷ name) refl,
          extract_last x name h,
        )
        refl

  pub rm_typed :
      (x : ℕ) (name : Bytes) (p : Program S C F)
      → IsWord (x ∷ name)
      → Program.take_line os lib local (codes "rm " ++ (x ∷ name)) p
        ≡ bind
            (Program.cmd_dele os lib local (x ∷ name) (record p { is = read_up }))
            (λ _. return true)
  unfolding Program.take_line Program.parse_cmd Program.read_word Program.run_command
      ClientMain.str2cmd bytes_eq
  rm_typed x name p h =
      let some_line : (length (codes "rm " ++ (x ∷ name)) == 0) ≡ false = ground arith in
      rw
        (
          some_line,
          extract_word b'r' (codes "m") b' ' (x ∷ name) (refl, (refl, tt)) refl,
          extract_skip b' ' (x ∷ name) refl,
          extract_last x name h,
        )
        refl
