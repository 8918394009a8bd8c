-- ===== src/Server/Confined.antt =====
-- The paths that the commands of a session work on, in src/server/client.cpp.
use cybersec_proj.Base.{
  ℕ, zero, suc, ◌≡◌, ◌≢◌, true, not, Option, some, none, [], ◌∷◌, Bytes, bytes_eq, codes, arith, M,
  Ends, Ends-bind, Ends-put_back, Ends-if, ltb, length, ◌+◌, ◌-◌, ◌%◌, ◌++◌, ◌==◌, ◌&&◌, return,
  Bool-cases, inl, inr, Option-cases, if◌then◌else◌,
}
use cybersec_proj.Base.Int.{ℤ, exceeds, to_count}
use cybersec_proj.Protocol.{parola, max_file_size, buffer_size}
use cybersec_proj.Openssl.{Openssl}
use cybersec_proj.Connection.{Socket}
use cybersec_proj.Crypto
use cybersec_proj.Crypto.{Link}
use cybersec_proj.Server
use cybersec_proj.Server.{FileSystem, Client, full_path, server_root}

-- A name without a slash.
abbrev pub IsPlain : Bytes → Type 0
IsPlain [] = Unit {0}
IsPlain (c ∷ cs) = (c ≢ b'/') × IsPlain cs

parola-IsPlain : (name : Bytes) → parola name ≡ true → IsPlain name
unfolding parola
parola-IsPlain [] h = tt
parola-IsPlain (c ∷ cs) h = (ground arith, parola-IsPlain cs (ground arith))

-- `g` comes from `f` by removing, emptying and extending files in SERVER_ROOT.
pub data Reach {F : Type 0} (files : FileSystem F) (f : F) : F → Type 0 where
  here : Reach files f f
  remove :
      {g : F} (name : Bytes)
      → Reach files f g
      → IsPlain name
      → Reach files f (files.remove g (full_path name)).1
  create :
      {g h : F} (name : Bytes)
      → Reach files f g
      → IsPlain name
      → files.create g (full_path name) ≡ some h
      → Reach files f h
  append :
      {g : F} (name bytes : Bytes)
      → Reach files f g
      → IsPlain name
      → Reach files f (files.append g (full_path name) bytes)

module _ {S C F : Type 0} (os : Socket S) (lib : Openssl C) (files : FileSystem F) (f : F) where
  abbrev pub Confined : Client S C F → Type 0
  Confined c = Reach files f c.fs

  link-Confined :
      {A : Type 0} (m : M (Link S C) A) (c : Client S C F)
      → Confined c
      → Ends Confined (Server.on_link m c)
  link-Confined m c h = Ends-put_back Confined _ (m c.link) (λ l. h)

  send_cmd-Confined :
      (c : Client S C F) → Confined c → Ends Confined (Server.send_cmd os lib files c)
  unfolding Server.send_cmd
  send_cmd-Confined c h =
      Ends-bind Confined _ _
        (Ends-if Confined (ltb 0 (length c.os)) _ _ c
          (Ends-bind Confined (Server.on_link (Crypto.send os lib c.os) c) _
            (link-Confined (Crypto.send os lib c.os) c h) (λ _ s k. k))
          h)
        (λ _ s k. k)

  reply-Confined :
      (n : ℕ) (c : Client S C F) → Confined c → Ends Confined (Server.reply os lib files n c)
  unfolding Server.reply
  reply-Confined n c h = send_cmd-Confined _ h

  dele_named-Confined :
      (name : Bytes) (c : Client S C F)
      → Confined c
      → Ends Confined (Server.dele_named os lib files name c)
  unfolding Server.dele_named
  dele_named-Confined name c h = elim (Bool-cases (parola name)) [
    | inl p ↦ rw p (
        Ends-if Confined _ (Server.reply os lib files _) (Server.reply os lib files _) _
          (reply-Confined _ _ (remove name h (parola-IsPlain name p)))
          (reply-Confined _ _ (remove name h (parola-IsPlain name p))))
    | inr p ↦ rw p (reply-Confined _ c h)
  ]

  retr_loop-Confined :
      (content : Bytes) (count : ℕ) (c : Client S C F)
      → Confined c
      → Ends Confined (Server.retr_loop os lib files content count c)
  unfolding Server.retr_loop
  retr_loop-Confined [] count c h = h
  retr_loop-Confined (x ∷ xs) count c h =
      Ends-bind Confined _ _
        (Ends-if Confined (count % buffer_size == 0) (Server.send_cmd os lib files) (return tt)
          (record c { os = c.os ++ (x ∷ []) }) (send_cmd-Confined _ h) h)
        (λ _ s k. retr_loop-Confined xs (count + 1) s k)

  send_content-Confined :
      (size : ℤ) (content : Bytes) (c : Client S C F)
      → Confined c
      → Ends Confined (Server.send_content os lib files size content c)
  unfolding Server.send_content
  send_content-Confined size content c h = Ends-bind Confined _ _ (send_cmd-Confined _ h) (λ _ s k.
      Ends-bind Confined _ _ (retr_loop-Confined content 0 s k)
        (λ _ s' k'. send_cmd-Confined s' k'))

  retr_named-Confined :
      (name : Bytes) (c : Client S C F)
      → Confined c
      → Ends Confined (Server.retr_named os lib files name c)
  unfolding Server.retr_named
  retr_named-Confined name c h = elim (Bool-cases (parola name)) [
    | inl p ↦ elim (Option-cases (files.read c.fs (full_path name))) [
      | inl e ↦ rw (p, e) (reply-Confined _ c h)
      | inr (content, e) ↦
          rw (p, e) (send_content-Confined (files.tell c.fs (full_path name)) content c h)
    ]
    | inr p ↦ rw p (reply-Confined _ c h)
  ]

  cmd_list-Confined :
      (c : Client S C F) → Confined c → Ends Confined (Server.cmd_list os lib files c)
  unfolding Server.cmd_list
  cmd_list-Confined c h = elim (Option-cases (files.list c.fs server_root)) [
    | inl e ↦ rw e (reply-Confined _ c h)
    | inr (names, e) ↦
        rw e (Ends-bind Confined _ _ (send_cmd-Confined _ h) (λ _ s k. send_cmd-Confined _ k))
  ]

  stor_loop-Confined :
      (fuel remaining : ℕ) (name : Bytes) (c : Client S C F)
      → IsPlain name
      → Confined c
      → Ends Confined (Server.stor_loop os lib files fuel remaining (full_path name) c)
  unfolding Server.stor_loop Server.recv_body_fragment
  stor_loop-Confined fuel zero name c p h = h
  stor_loop-Confined zero (suc remaining) name c p h = tt
  stor_loop-Confined (suc fuel) (suc remaining) name c p h =
      let len = if ltb buffer_size (suc remaining) then buffer_size else suc remaining in
      Ends-bind Confined (Server.recv_body_fragment os lib files len c) _
        (link-Confined (Crypto.recv os lib len) c h)
        (λ fragment s k. stor_loop-Confined fuel _ name _ p (append name fragment k p))

  stor_sized-Confined :
      (name : Bytes) (size : ℤ) (c : Client S C F)
      → IsPlain name
      → Confined c
      → Ends Confined (Server.stor_sized os lib files name size c)
  unfolding Server.stor_sized Server.stor_content
  stor_sized-Confined name size c p h = elim (Bool-cases (exceeds size max_file_size)) [
    | inl big ↦ rw big (reply-Confined _ c h)
    | inr fits ↦ elim (Option-cases (files.create c.fs (full_path name))) [
      | inl e ↦ rw (fits, e) (reply-Confined _ c h)
      | inr (g, e) ↦
          rw (fits, e)
            (Ends-bind Confined _ _ (reply-Confined _ _ (create name h p e))
              (λ _ s k. stor_loop-Confined (to_count size) (to_count size) name s p k))
    ]
  ]

  stor_given-Confined :
      (name : Bytes) (size : Option ℤ) (c : Client S C F)
      → IsPlain name
      → Confined c
      → Ends Confined (Server.stor_given os lib files name size c)
  unfolding Server.stor_given
  stor_given-Confined name none c p h = tt
  stor_given-Confined name (some size) c p h = stor_sized-Confined name size c p h

  stor_tagged-Confined :
      (name tag : Bytes) (size : Option ℤ) (c : Client S C F)
      → IsPlain name
      → Confined c
      → Ends Confined (Server.stor_tagged os lib files name tag size c)
  unfolding Server.stor_tagged
  stor_tagged-Confined name tag size c p h =
      Ends-if Confined (not (bytes_eq tag (codes "Size:"))) _ _ c (reply-Confined _ c h)
        (stor_given-Confined name size c p h)

  stor_named-Confined :
      (name : Bytes) (c : Client S C F)
      → Confined c
      → Ends Confined (Server.stor_named os lib files name c)
  unfolding Server.stor_named Server.read_word Server.read_int64
  stor_named-Confined name c h = elim (Bool-cases (parola name)) [
    | inl p ↦ rw p (stor_tagged-Confined name _ _ _ (parola-IsPlain name p) h)
    | inr p ↦ rw p (reply-Confined _ c h)
  ]

  keep_char-Confined :
      (next : ℕ → M (Client S C F) Bytes) (prev : ℕ) (got : Bytes) (c : Client S C F)
      → ((p : ℕ) (s : Client S C F) → Confined s → Ends Confined (next p s))
      → Confined c
      → Ends Confined (Server.keep_char os lib files next prev got c)
  unfolding Server.keep_char
  keep_char-Confined next prev [] c k h = Ends-bind Confined _ _ (k prev c h) (λ _ s h'. h')
  keep_char-Confined next prev (x ∷ _) c k h =
      Ends-if Confined ((prev == b'\n') && (x == b'\n')) (return (x ∷ [])) _ c h
        (Ends-bind Confined (next x c) (λ rest. return (x ∷ rest)) (k x c h) (λ _ s h'. h'))

  recv_cmd_loop-Confined :
      (rounds prev : ℕ) (c : Client S C F)
      → Confined c
      → Ends Confined (Server.recv_cmd_loop os lib files rounds prev c)
  unfolding Server.recv_cmd_loop
  recv_cmd_loop-Confined zero prev c h = h
  recv_cmd_loop-Confined (suc rounds) prev c h =
      Ends-bind Confined _ _ (link-Confined (Crypto.recv os lib 1) c h) (λ got s k.
        keep_char-Confined (Server.recv_cmd_loop os lib files rounds) prev got s
          (recv_cmd_loop-Confined rounds) k)

  dispatch-Confined :
      (cmd : Bytes) (c : Client S C F)
      → Confined c
      → Ends Confined (Server.dispatch os lib files cmd c)
  unfolding Server.dispatch Server.cmd_dele Server.cmd_quit Server.cmd_retr Server.cmd_stor
      Server.cmd_unknown Server.read_word
  dispatch-Confined cmd c h =
      Ends-if Confined (bytes_eq cmd (codes "DELE")) _ _ c
        (Ends-bind Confined _ _ (dele_named-Confined _ _ h) (λ _ s k. k))
        (Ends-if Confined (bytes_eq cmd (codes "LIST")) _ _ c
          (Ends-bind Confined _ _ (cmd_list-Confined c h) (λ _ s k. k))
          (Ends-if Confined (bytes_eq cmd (codes "QUIT")) _ _ c
            (Ends-bind Confined _ _ (reply-Confined _ c h) (λ _ s k. k))
            (Ends-if Confined (bytes_eq cmd (codes "RETR")) _ _ c
              (Ends-bind Confined _ _ (retr_named-Confined _ _ h) (λ _ s k. k))
              (Ends-if Confined (bytes_eq cmd (codes "STOR")) _ _ c
                (Ends-bind Confined _ _ (stor_named-Confined _ _ h) (λ _ s k. k))
                (Ends-bind Confined _ _ (reply-Confined _ c h) (λ _ s k. k))))))

  recv_cmd-Confined :
      (c : Client S C F) → Confined c → Ends Confined (Server.recv_cmd os lib files c)
  unfolding Server.recv_cmd
  recv_cmd-Confined c h =
      Ends-bind Confined _ _ (recv_cmd_loop-Confined (buffer_size - 1) 0 c h) (λ _ s k. k)

  obey-Confined :
      (cmd : Bytes) (c : Client S C F) → Confined c → Ends Confined (Server.obey os lib files cmd c)
  unfolding Server.obey
  obey-Confined cmd c h =
      Ends-if Confined c.is.good (Server.dispatch os lib files cmd) (return true) c
        (dispatch-Confined cmd c h) h

  round-Confined : (c : Client S C F) → Confined c → Ends Confined (Server.round os lib files c)
  unfolding Server.round Server.read_word
  round-Confined c h = Ends-bind Confined _ _ (recv_cmd-Confined c h) (λ _ s k. obey-Confined _ _ k)

  pub command_loop-Confined :
      (rounds : ℕ) (c : Client S C F)
      → Confined c
      → Ends Confined (Server.command_loop os lib files rounds c)
  unfolding Server.command_loop
  command_loop-Confined zero c h = h
  command_loop-Confined (suc rounds) c h =
      Ends-bind Confined _ _ (round-Confined c h)
        (λ more s k. Ends-if Confined more _ _ s (command_loop-Confined rounds s k) k)
