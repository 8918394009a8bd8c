-- ===== src/Server/RoundStor.antt =====
-- One round of `execute` for a STOR command, from the bytes of the command on.
use cybersec_proj.Base.{
  ℕ, ◌≤◌, ◌<◌, ◌≡◌, ◌∙◌, refl, true, Bytes, List, [], ◌∷◌, ◌++◌, arith, length, bind, return, codes,
  bytes_eq,
}
use cybersec_proj.Base.Int.{pos}
use cybersec_proj.Protocol.{buffer_size, parola}
use cybersec_proj.Text.{from_text, decimal, int64_max}
use cybersec_proj.Text.Extract.{extract_word, extract_skip}
use cybersec_proj.Text.Plain.{IsPlainText, decimal-IsPlainText}
use cybersec_proj.Openssl.{Openssl, IsSound}
use cybersec_proj.Connection.{Socket}
use cybersec_proj.Connection.Stream.{Stream}
use cybersec_proj.Crypto.{Link}
use cybersec_proj.Crypto.Channel.{Mark, Ready, SameSender, plaintext}
use cybersec_proj.ClientMain.Program.{stor_line}
use cybersec_proj.ClientMain.Response.{IsReply, more}
use cybersec_proj.ClientMain.Replies.{IsReply-after, empty_line, size_line_tag, size_line_size}
use cybersec_proj.Server
use cybersec_proj.Server.{FileSystem, Client}
use cybersec_proj.Server.Round.{round_reads, parola-IsWord, parola-IsPlainText}

-- The second line of the command.
abbrev size_text : ℕ → Bytes
size_text size = codes "Size: " ++ (decimal size ++ (b'\n' ∷ b'\n' ∷ []))

stor_word : IsPlainText (codes "STOR ")
stor_word = (
  omega arith,
  omega arith,
  (
    omega arith,
    omega arith,
    (omega arith, omega arith, (omega arith, omega arith, (omega arith, omega arith, tt))),
  ),
)

pub stor_line-IsReply :
    (name : Bytes) (size : ℕ) → parola name ≡ true → IsReply 0 (stor_line name size)
unfolding stor_line
stor_line-IsReply name size h = IsReply-after 0 (codes "STOR ") _ stor_word (omega arith) (λ c n.
    IsReply-after c name _ (parola-IsPlainText name h) n (λ d k.
      more b'\n' (omega arith) (ground arith) (
        more b'S' (omega arith) refl (
          more b'i' (omega arith) refl (
            more b'z' (omega arith) refl (
              more b'e' (omega arith) refl (
                more b':' (omega arith) refl (
                  more b' ' (omega arith) refl (
                    IsReply-after b' ' (decimal size) _ (decimal-IsPlainText size) (omega arith)
                      empty_line)))))))))

module _ {S C F : Type 0} (os : Socket S) (lib : Openssl C) (files : FileSystem F) where
  pub stor_obeyed :
      (x : ℕ) (name : Bytes) (size : ℕ) (c : Client S C F)
      → parola (x ∷ name) ≡ true
      → size ≤ int64_max
      → bind
          (Server.read_word (record c { is = from_text (stor_line (x ∷ name) size) }))
          (Server.obey os lib files)
        ≡ bind
            (Server.stor_sized os lib files
              (x ∷ name)
              (pos size)
              (record c { is = from_text (b'\n' ∷ b'\n' ∷ []) }))
            (λ _. return true)
  unfolding Server.read_word Server.read_int64 Server.obey Server.dispatch Server.cmd_stor
      Server.stor_named Server.stor_tagged Server.stor_given stor_line bytes_eq
  stor_obeyed x name size c h small =
      rw
        (
          extract_word b'S' (codes "TOR") b' ' ((x ∷ name) ++ (b'\n' ∷ size_text size))
              (refl, (refl, (refl, (refl, tt)))) refl,
          extract_skip b' ' ((x ∷ name) ++ (b'\n' ∷ size_text size)) refl,
          extract_word x name b'\n' (size_text size) (parola-IsWord (x ∷ name) h) refl,
          h,
          size_line_tag size,
          size_line_size size small,
        )
        refl

module _ {S C F : Type 0} (os : Socket S) (net : Stream os) (lib : Openssl C)
    {InSync : C → C → Type 0} (sound : IsSound lib InSync) (files : FileSystem F) where
  -- A STOR command of less than BUFFER_SIZE bytes, with an allowed name and a size that an int64_t holds,
  -- is about to arrive. One round of `execute` then is `cmd_stor` from the test of the size on, on a link
  -- that has read the command and nothing after it and has sent nothing, and the loop goes on.
  pub round_stor :
      {mark : Mark C} (x : ℕ) (name rest : Bytes) (size : ℕ) (c : Client S C F) (ps : List Bytes)
      → Ready os net lib sound mark c.link ps
      → plaintext os net lib sound c.link ps ≡ stor_line (x ∷ name) size ++ rest
      → length (stor_line (x ∷ name) size) < buffer_size
      → parola (x ∷ name) ≡ true
      → size ≤ int64_max
      → (l' : Link S C) × (ps' : List Bytes) × (Server.round os lib files c
          ≡ bind
              (Server.stor_sized os lib files
                (x ∷ name)
                (pos size)
                (record c { link = l'; is = from_text (b'\n' ∷ b'\n' ∷ []) }))
              (λ _. return true))
        × (plaintext os net lib sound l' ps' ≡ rest)
        × Ready os net lib sound mark l' ps'
        × (net.outbox l'.sock ≡ net.outbox c.link.sock)
        × SameSender c.link l'
  round_stor x name rest size c ps h e k p small =
      let (l', ps', q, y, h', o, w) =
        round_reads os net lib sound files (stor_line (x ∷ name) size) rest c ps h e
          (stor_line-IsReply (x ∷ name) size p) k in
      (
        l',
        ps',
        q ∙ stor_obeyed os lib files x name size (record c { link = l' }) p small,
        y,
        h',
        o,
        w,
      )
