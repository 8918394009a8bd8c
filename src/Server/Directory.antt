-- ===== src/Server/Directory.antt =====
-- LIST of a directory whose listing fits a buffer.
use cybersec_proj.Base.{
  ◌+◌, ◌≤◌, ◌<◌, ◌≡◌, ◌∙◌, refl, sym, ap, subst, true, Bool-cases, inl, inr, Bytes, List, [], ◌∷◌,
  ◌++◌, append-nil, append_assoc, some, arith, length, ok, bind, return, codes, bytes_eq,
  if◌then◌else◌,
}
use cybersec_proj.Protocol.{buffer_size, hmac_len}
use cybersec_proj.Word.{u32_mod}
use cybersec_proj.Text.{from_text}
use cybersec_proj.Text.Extract.{extract_word}
use cybersec_proj.Text.Plain.{IsPlainText}
use cybersec_proj.Openssl.{Openssl, IsSound}
use cybersec_proj.Connection.{Socket}
use cybersec_proj.Connection.Stream.{Stream}
use cybersec_proj.Crypto.Channel.{IsMessage, All, concat}
use cybersec_proj.ClientMain.Response.{IsReply}
use cybersec_proj.ClientMain.Replies.{IsReply-after, empty_line}
use cybersec_proj.ClientMain.Printing.{listing}
use cybersec_proj.ClientMain.Listing.{none_or_one}
use cybersec_proj.Server
use cybersec_proj.Server.{FileSystem, Client, server_root, size_line}
use cybersec_proj.Server.Reply.{Sent, Sent-trans, send_cmd_lem}
use cybersec_proj.Server.Retrieve.{flush_lem, size_line-IsMessage}

-- The names of a directory but "." and "..".
abbrev pub entries : List Bytes → List Bytes
entries [] = []
entries (name ∷ names) =
    let rest = entries names in
    if bytes_eq name (codes ".")
    then rest
    else if bytes_eq name (codes "..")
    then rest
    else name ∷ rest

one_message :
    (sent : List Bytes) (m : Bytes)
    → All IsMessage sent
    → length sent ≤ 1
    → concat sent ≡ m
    → sent ≡ none_or_one m
one_message [] m h k e = ap none_or_one e
one_message ([] ∷ []) m h k e = absurd (omega (arith, h.0.0))
one_message ((c ∷ cs) ∷ []) m h k e = ap none_or_one (sym (append-nil (c ∷ cs)) ∙ e)
one_message (p ∷ q ∷ sent) m h k e = absurd (omega arith)

-- The command of `cmd_remote_list`.
abbrev pub list_line : Bytes
list_line = codes "LIST" ++ (b'\n' ∷ b'\n' ∷ [])

list_word : IsPlainText (codes "LIST")
list_word = (
  omega arith,
  omega arith,
  (omega arith, omega arith, (omega arith, omega arith, (omega arith, omega arith, tt))),
)

pub list_line-IsReply : IsReply 0 list_line
list_line-IsReply = IsReply-after 0 (codes "LIST") _ list_word (omega arith) empty_line

module _ {S C F : Type 0} (os : Socket S) (lib : Openssl C) (files : FileSystem F) where
  -- What the server writes is a line for each name but "." and "..".
  pub file_list-listing :
      (names : List Bytes) → Server.file_list os lib files names ≡ listing (entries names)
  unfolding Server.file_list
  file_list-listing [] = refl
  file_list-listing (name ∷ names) = elim (Bool-cases (bytes_eq name (codes "."))) [
    | inl here ↦ rw here (file_list-listing names)
    | inr not_here ↦ elim (Bool-cases (bytes_eq name (codes ".."))) [
      | inl up ↦ rw (not_here, up) (file_list-listing names)
      | inr not_up ↦
          rw (not_here, not_up)
            (append_assoc name (b'\n' ∷ []) (Server.file_list os lib files names)
              ∙ ap (λ (bs : Bytes). name ++ (b'\n' ∷ bs)) (file_list-listing names))
    ]
  ]

  pub list_obeyed :
      (c : Client S C F)
      → bind (Server.read_word (record c { is = from_text list_line })) (Server.obey os lib files)
        ≡ bind
            (Server.cmd_list os lib files (record c { is = from_text (b'\n' ∷ b'\n' ∷ []) }))
            (λ _. return true)
  unfolding Server.read_word Server.obey Server.dispatch bytes_eq
  list_obeyed c =
      rw
        (extract_word b'L' (codes "IST") b'\n' (b'\n' ∷ []) (refl, (refl, (refl, (refl, tt)))) refl)
        refl

module _ {S C F : Type 0} (os : Socket S) (net : Stream os) (lib : Openssl C)
    {InSync : C → C → Type 0} (sound : IsSound lib InSync) (files : FileSystem F) where
  -- The directory can be read and its listing fits a buffer. Then LIST sends the line with the size of the
  -- listing and then the listing in one message, if it is not empty.
  pub cmd_list_lem :
      (c : Client S C F) (d : C) (y : InSync c.link.crypto.ctx_e d) (names : List Bytes)
      → files.list c.fs server_root ≡ some names
      → length (Server.file_list os lib files names) ≤ buffer_size
      → c.os ≡ []
      → length c.link.crypto.auth_key ≡ hmac_len
      → c.link.crypto.sequence_number_o + 4 < u32_mod
      → (c' : Client S C F) × (Server.cmd_list os lib files c ≡ ok tt c')
        × Sent os net lib sound files c.link d y c'.link (
            size_line (length (Server.file_list os lib files names))
            ∷ none_or_one (Server.file_list os lib files names))
        × (c'.os ≡ [])
        × (c'.fs ≡ c.fs)
  unfolding Server.cmd_list
  cmd_list_lem c d y names found small silent hk room =
      let m = Server.file_list os lib files names in
      let head = size_line (length m) in
      let c0 : Client S C F = record c { os = c.os ++ head } in
      let written : c0.os ≡ head = rw silent refl in
      let (c1, q1, s1, w1, g1) =
        send_cmd_lem os net lib sound files c0 d y
          (rw written (size_line-IsMessage (length m) (omega (arith, small)))) hk (omega arith) in
      let c2 : Client S C F = record c1 { os = c1.os ++ m } in
      let written' : c2.os ≡ m = rw w1 refl in
      let (c3, sent, q3, s3, w3, n3, e3, g3) =
        flush_lem os net lib sound files c2 s1.peer s1.sync (rw written' small) (rw (s1.keyed) hk)
          (omega (arith, s1.counted)) in
      let both : c0.os ∷ sent ≡ head ∷ none_or_one m =
        ap (λ (bs : Bytes). bs ∷ sent) written
        ∙ ap (λ (ms : List Bytes). head ∷ ms) (one_message sent m s3.messages n3 (w3 ∙ written')) in
      (
        c3,
        rw (found, q1) q3,
        subst (λ (ms : List Bytes). Sent os net lib sound files c.link d y c3.link ms) both
            (Sent-trans os net lib sound files s1 s3),
        e3,
        g3 ∙ g1,
      )
