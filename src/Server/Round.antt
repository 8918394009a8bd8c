-- ===== src/Server/Round.antt =====
-- One round of `execute` for a RETR command, from the bytes of the command on.
use cybersec_proj.Base.Int.{pos}
use cybersec_proj.Base.{
  ℕ, ◌<◌, ◌≡◌, ◌∙◌, refl, true, Bytes, List, [], ◌∷◌, ◌++◌, arith, length, bind, return, codes,
  bytes_eq, some,
}
use cybersec_proj.Protocol.{buffer_size, parola}
use cybersec_proj.Text.{from_text}
use cybersec_proj.Text.Extract.{IsWord, extract_word, extract_skip}
use cybersec_proj.Text.Plain.{IsPlainText}
use cybersec_proj.Openssl.{Openssl, IsSound}
use cybersec_proj.Connection.{Socket}
use cybersec_proj.Connection.Stream.{Stream}
use cybersec_proj.Crypto.{Link}
use cybersec_proj.Crypto.Channel.{Mark, Ready, SameSender, plaintext}
use cybersec_proj.ClientMain.Program.{retr_line}
use cybersec_proj.ClientMain.Response.{IsReply, recv_response_lem}
use cybersec_proj.ClientMain.Replies.{IsReply-after, empty_line}
use cybersec_proj.Server
use cybersec_proj.Server.{FileSystem, Client, full_path}
use cybersec_proj.Server.Request.{recv_cmd-eq-recv_response}

pub parola-IsWord : (name : Bytes) → parola name ≡ true → IsWord name
unfolding parola
parola-IsWord [] h = tt
parola-IsWord (c ∷ cs) h = (ground arith, parola-IsWord cs (ground arith))

pub parola-IsPlainText : (name : Bytes) → parola name ≡ true → IsPlainText name
unfolding parola
parola-IsPlainText [] h = tt
parola-IsPlainText (c ∷ cs) h = (ground arith, ground arith, parola-IsPlainText cs (ground arith))

retr_word : IsPlainText (codes "RETR ")
retr_word = (
  omega arith,
  omega arith,
  (
    omega arith,
    omega arith,
    (omega arith, omega arith, (omega arith, omega arith, (omega arith, omega arith, tt))),
  ),
)

pub retr_line-IsReply : (name : Bytes) → parola name ≡ true → IsReply 0 (retr_line name)
unfolding retr_line
retr_line-IsReply name h =
    IsReply-after 0 (codes "RETR ") (name ++ (b'\n' ∷ b'\n' ∷ [])) retr_word (omega arith)
      (λ c n. IsReply-after c name (b'\n' ∷ b'\n' ∷ []) (parola-IsPlainText name h) n empty_line)

module _ {S C F : Type 0} (os : Socket S) (net : Stream os) (lib : Openssl C)
    {InSync : C → C → Type 0} (sound : IsSound lib InSync) (files : FileSystem F) where
  -- The command `line`, of less than BUFFER_SIZE bytes, is about to arrive. One round of `execute` obeys
  -- it on a link that has read the command and nothing after it and has sent nothing.
  pub round_reads :
      {mark : Mark C} (line rest : Bytes) (c : Client S C F) (ps : List Bytes)
      → Ready os net lib sound mark c.link ps
      → plaintext os net lib sound c.link ps ≡ line ++ rest
      → IsReply 0 line
      → length line < buffer_size
      → (l' : Link S C) × (ps' : List Bytes) × (Server.round os lib files c
          ≡ bind
              (Server.read_word (record c { link = l'; is = from_text line }))
              (Server.obey os lib files))
        × (plaintext os net lib sound l' ps' ≡ rest)
        × Ready os net lib sound mark l' ps'
        × (net.outbox l'.sock ≡ net.outbox c.link.sock)
        × SameSender c.link l'
  unfolding Server.round
  round_reads line rest c ps h e r k =
      let (l', ps', q, y, h', o, w, _) =
        recv_response_lem os net lib sound line rest c.link ps h r e k in
      (l', ps', rw (recv_cmd-eq-recv_response os lib files c, q) refl, y, h', o, w)

  retr_obeyed :
      (x : ℕ) (name content : Bytes) (c : Client S C F)
      → parola (x ∷ name) ≡ true
      → files.read c.fs (full_path (x ∷ name)) ≡ some content
      → files.tell c.fs (full_path (x ∷ name)) ≡ pos (length content)
      → bind
          (Server.read_word (record c { is = from_text (retr_line (x ∷ name)) }))
          (Server.obey os lib files)
        ≡ bind
            (Server.send_content os lib files
              (pos (length content))
              content
              (record c { is = from_text (b'\n' ∷ b'\n' ∷ []) }))
            (λ _. return true)
  unfolding Server.read_word Server.obey Server.dispatch Server.cmd_retr Server.retr_named retr_line
      bytes_eq
  retr_obeyed x name content c h e t =
      rw
        (
          extract_word b'R' (codes "ETR") b' ' ((x ∷ name) ++ (b'\n' ∷ b'\n' ∷ []))
              (refl, (refl, (refl, (refl, tt)))) refl,
          extract_skip b' ' ((x ∷ name) ++ (b'\n' ∷ b'\n' ∷ [])) refl,
          extract_word x name b'\n' (b'\n' ∷ []) (parola-IsWord (x ∷ name) h) refl,
          h,
          e,
          t,
        )
        refl

  -- A RETR command of less than BUFFER_SIZE bytes, with an allowed name of a regular file that can be opened, is
  -- about to arrive. One round of `execute` then is `send_content` of that file, on a link that has read
  -- the command and nothing after it and has sent nothing, and the loop goes on.
  pub round_retr :
      {mark : Mark C} (x : ℕ) (name content rest : Bytes) (c : Client S C F) (ps : List Bytes)
      → Ready os net lib sound mark c.link ps
      → plaintext os net lib sound c.link ps ≡ retr_line (x ∷ name) ++ rest
      → length (retr_line (x ∷ name)) < buffer_size
      → parola (x ∷ name) ≡ true
      → files.read c.fs (full_path (x ∷ name)) ≡ some content
      → files.tell c.fs (full_path (x ∷ name)) ≡ pos (length content)
      → (l' : Link S C) × (ps' : List Bytes) × (Server.round os lib files c
          ≡ bind
              (Server.send_content os lib files
                (pos (length content))
                content
                (record c { link = l'; is = from_text (b'\n' ∷ b'\n' ∷ []) }))
              (λ _. return true))
        × (plaintext os net lib sound l' ps' ≡ rest)
        × Ready os net lib sound mark l' ps'
        × (net.outbox l'.sock ≡ net.outbox c.link.sock)
        × SameSender c.link l'
  round_retr x name content rest c ps h e k p r t =
      let (l', ps', q, y, h', o, w) =
        round_reads (retr_line (x ∷ name)) rest c ps h e (retr_line-IsReply (x ∷ name) p) k in
      (l', ps', q ∙ retr_obeyed x name content (record c { link = l' }) p r t, y, h', o, w)
