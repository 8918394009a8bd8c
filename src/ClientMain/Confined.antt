-- ===== src/ClientMain/Confined.antt =====
-- The local files that the client program works on, in src/client/main.cpp.
use cybersec_proj.Base.{
  ℕ, zero, suc, ◌-◌, ◌≡◌, ◌⊎◌, inl, inr, refl, not, Option, some, none, List, [], ◌∷◌, ◌++◌, Bytes,
  bytes_eq, codes, M, Ends, Ends-bind, Ends-put_back, Ends-defined, defined, drop, ◌>>=◌, Ends-if,
  ltb, length, ◌==◌, Option-cases, if◌then◌else◌, replicate, true, return,
}
use cybersec_proj.Base.Int.{ℤ, to_count}
use cybersec_proj.Protocol.{buffer_size, ok_status}
use cybersec_proj.Text.{extract, extract_int64, from_text}
use cybersec_proj.Openssl.{Openssl}
use cybersec_proj.Connection.{Socket}
use cybersec_proj.Crypto
use cybersec_proj.Crypto.{Link}
use cybersec_proj.ClientMain
use cybersec_proj.ClientMain.{CommandType}
use cybersec_proj.ClientMain.Program
use cybersec_proj.ClientMain.Program.{
  Program, Local, client_root, is_status, is_negative, stor_line,
}
use cybersec_proj.Server.{FileSystem}

-- `g` comes from `f` by emptying and extending files below CLIENT_ROOT, of chosen names.
pub data Saved {F : Type 0} (files : FileSystem F) (Chosen : Bytes → Type 0) (f : F)
    : F → Type 0 where
  here : Saved files Chosen f f
  create :
      {g h : F} (name : Bytes)
      → Saved files Chosen f g
      → Chosen name
      → files.create g (client_root ++ name) ≡ some h
      → Saved files Chosen f h
  append :
      {g : F} (name bytes : Bytes)
      → Saved files Chosen f g
      → Chosen name
      → Saved files Chosen f (files.append g (client_root ++ name) bytes)

-- The second word of a line.
unfoldable pub argument : Bytes → Bytes
argument line =
    let (cmd, is') = extract (from_text line) in
    let (arg, is'') = extract is' in elim arg [ none ↦ [] | some word ↦ word ]

-- The second words of the lines of an input, and of the line that stands for its end.
abbrev pub Asked : List Bytes → Bytes → Type 0
Asked [] name = name ≡ argument (codes "q")
Asked (line ∷ lines) name = (name ≡ argument line) ⊎ Asked lines name

module _ {S C F : Type 0} (os : Socket S) (lib : Openssl C) (local : Local F)
    (Chosen : Bytes → Type 0) (f : F) where
  open local use {files}

  abbrev pub Kept : Program S C F → Type 0
  Kept p = Saved files Chosen f p.fs

  link-Kept :
      {A : Type 0} (m : M (Link S C) A) (p : Program S C F)
      → Kept p
      → Ends Kept (Program.on_link m p)
  link-Kept m p h = Ends-put_back Kept _ (m p.link) (λ l. h)

  read_number-Kept : (p : Program S C F) → Kept p → Ends Kept (Program.read_number p)
  unfolding Program.read_number
  read_number-Kept p h = elim (Option-cases (extract_int64 p.is).0) [
    | inl e ↦ rw e tt
    | inr (n, e) ↦ rw e h
  ]

  send_cmd-Kept :
      (cmd : Bytes) (p : Program S C F) → Kept p → Ends Kept (Program.send_cmd os lib local cmd p)
  unfolding Program.send_cmd
  send_cmd-Kept cmd p h = link-Kept (do _ ← Crypto.send os lib cmd; return tt) p h

  receive_response-Kept :
      (p : Program S C F) → Kept p → Ends Kept (Program.receive_response os lib local p)
  unfolding Program.receive_response
  receive_response-Kept p h =
      Ends-bind Kept _ _ (link-Kept (ClientMain.recv_response os lib) p h) (λ is' s k. k)

  recv_list_loop-Kept :
      (fuel : ℕ) (buffer : Bytes) (remaining : ℕ) (p : Program S C F)
      → Kept p
      → Ends Kept (Program.recv_list_loop os lib local fuel buffer remaining p)
  unfolding Program.recv_list_loop Program.recv_fragment
  recv_list_loop-Kept fuel buffer zero p h = h
  recv_list_loop-Kept zero buffer (suc remaining) p h = tt
  recv_list_loop-Kept (suc fuel) buffer (suc remaining) p h =
      let len = if ltb buffer_size (suc remaining) then buffer_size else suc remaining in
      Ends-bind Kept _ _ (link-Kept (Crypto.recv os lib len) p h) (λ fragment s k.
        let buffer' = fragment ++ drop (length fragment) buffer in
        Ends-bind Kept (defined (Program.has_zero buffer') s) _
          (Ends-defined Kept (Program.has_zero buffer') s k)
          (λ _ s' k'. recv_list_loop-Kept fuel buffer' (suc remaining - length fragment) _ k'))

  recv_file_loop-Kept :
      (fuel remaining : ℕ) (name : Bytes) (p : Program S C F)
      → Chosen name
      → Kept p
      → Ends Kept (Program.recv_file_loop os lib local fuel remaining (client_root ++ name) p)
  unfolding Program.recv_file_loop Program.recv_fragment
  recv_file_loop-Kept fuel zero name p c h = h
  recv_file_loop-Kept zero (suc remaining) name p c h = tt
  recv_file_loop-Kept (suc fuel) (suc remaining) name p c h =
      let len = if ltb buffer_size (suc remaining) then buffer_size else suc remaining in
      Ends-bind Kept (Program.recv_fragment os lib local len p) _
        (link-Kept (Crypto.recv os lib len) p h)
        (λ fragment s k. recv_file_loop-Kept fuel _ name _ c (append name fragment k c))

  list_sized-Kept :
      (size : ℤ) (p : Program S C F) → Kept p → Ends Kept (Program.list_sized os lib local size p)
  unfolding Program.list_sized
  list_sized-Kept size p h =
      Ends-if Kept (is_negative size) (return tt) _ p h
        (recv_list_loop-Kept (to_count size) (replicate buffer_size 0) (to_count size) _ h)

  recv_list-Kept : (p : Program S C F) → Kept p → Ends Kept (Program.recv_list os lib local p)
  unfolding Program.recv_list Program.list_tagged Program.read_word
  recv_list-Kept p h = Ends-bind Kept _ _ (read_number-Kept p h) (λ response s k.
      Ends-if Kept (is_status response ok_status) _ (return tt) s
        (Ends-if Kept (not (bytes_eq _ (codes "Size:"))) (return tt) _ _ k
          (Ends-bind Kept _ _ (read_number-Kept _ k) (λ size s' k'. list_sized-Kept size s' k')))
        k)

  file_sized-Kept :
      (name : Bytes) (size : ℤ) (p : Program S C F)
      → Chosen name
      → Kept p
      → Ends Kept (Program.file_sized os lib local name size p)
  unfolding Program.file_sized
  file_sized-Kept name size p c h =
      Ends-if Kept (is_negative size) (return tt) _ p h
        (elim (Option-cases (files.create p.fs (client_root ++ name))) [
          | inl e ↦ rw e h
          | inr (g, e) ↦
              rw e
                (recv_file_loop-Kept (to_count size) (to_count size) name _ c (create name h c e))
        ])

  recv_file-Kept :
      (name : Bytes) (p : Program S C F)
      → Chosen name
      → Kept p
      → Ends Kept (Program.recv_file os lib local name p)
  unfolding Program.recv_file Program.file_tagged Program.read_word
  recv_file-Kept name p c h = Ends-bind Kept _ _ (read_number-Kept p h) (λ response s k.
      Ends-if Kept (is_status response ok_status) _ (return tt) s
        (Ends-if Kept (not (bytes_eq _ (codes "Size:"))) (return tt) _ _ k (
          Ends-bind Kept _ _ (read_number-Kept _ k)
            (λ size s' k'. file_sized-Kept name size s' c k')))
        k)

  -- A command and the reply to it.
  asked-Kept :
      (cmd : Bytes) (p : Program S C F) (m : M (Program S C F) (Unit {0}))
      → Kept p
      → ((s : Program S C F) → Kept s → Ends Kept (m s))
      → Ends Kept (
          (Program.send_cmd os lib local cmd >>= λ _.
          (Program.receive_response os lib local >>= λ _. m))
            p)
  asked-Kept cmd p m h next =
      Ends-bind Kept _ _ (send_cmd-Kept cmd p h)
        (λ _ s k. Ends-bind Kept _ _ (receive_response-Kept s k) (λ _ s' k'. next s' k'))

  put-Kept :
      (path name content : Bytes) (p : Program S C F)
      → Kept p
      → Ends Kept (Program.put os lib local path name content p)
  unfolding Program.put
  put-Kept path name content p h = asked-Kept (stor_line name (length content)) p _ h (λ s k.
      Ends-bind Kept _ _ (read_number-Kept s k) (λ response s' k'.
        Ends-if Kept (is_status response ok_status) _ (return tt) s'
          (link-Kept (ClientMain.send_file os lib (local.reopen s'.fs path) (length content)) s' k')
          k'))

  checked-Kept :
      (checked : Option Bytes) (path name : Bytes) (p : Program S C F)
      → Kept p
      → Ends Kept (
          (elim checked as (λ x. M (Program S C F) (Unit {0})) [
            | none ↦ return tt
            | some content ↦ Program.put os lib local path name content
          ])
            p)
  checked-Kept none path name p h = h
  checked-Kept (some content) path name p h = put-Kept path name content p h

  cmd_stor-Kept :
      (arg : Bytes) (p : Program S C F) → Kept p → Ends Kept (Program.cmd_stor os lib local arg p)
  unfolding Program.cmd_stor Program.check_and_get_file_size
  cmd_stor-Kept [] p h = h
  cmd_stor-Kept (c ∷ cs) p h = checked-Kept _ (c ∷ cs) (Program.basename (c ∷ cs)) p h

  run_command-Kept :
      (cmd : CommandType) (arg : Bytes) (p : Program S C F)
      → Chosen arg
      → Kept p
      → Ends Kept (Program.run_command os lib local cmd arg p)
  unfolding Program.run_command Program.cmd_remote_list Program.cmd_quit Program.cmd_retr
      Program.cmd_dele
  run_command-Kept CommandType.help arg p c h = h
  run_command-Kept CommandType.r_list arg p c h =
      Ends-bind Kept _ _ (asked-Kept _ p _ h (λ s k. recv_list-Kept s k)) (λ _ s k. k)
  run_command-Kept CommandType.l_list arg p c h = h
  run_command-Kept CommandType.quit arg p c h =
      Ends-bind Kept _ _
        (Ends-bind Kept _ _ (send_cmd-Kept _ p h) (λ _ s k. receive_response-Kept s k)) (λ _ s k. k)
  run_command-Kept CommandType.retr [] p c h = h
  run_command-Kept CommandType.retr (x ∷ xs) p c h =
      Ends-bind Kept _ _ (asked-Kept _ p _ h (λ s k. recv_file-Kept (x ∷ xs) s c k)) (λ _ s k. k)
  run_command-Kept CommandType.stor arg p c h =
      Ends-bind Kept _ _ (cmd_stor-Kept arg p h) (λ _ s k. k)
  run_command-Kept CommandType.dele [] p c h = h
  run_command-Kept CommandType.dele (x ∷ xs) p c h =
      Ends-bind Kept _ _
        (asked-Kept _ p _ h (λ s k. Ends-bind Kept _ _ (read_number-Kept s k) (λ _ s' k'. k')))
        (λ _ s k. k)
  run_command-Kept CommandType.bad_req arg p c h = h

  take_line-Kept :
      (line : Bytes) (p : Program S C F)
      → Chosen (argument line)
      → Kept p
      → Ends Kept (Program.take_line os lib local line p)
  unfolding Program.take_line Program.parse_cmd Program.read_word argument
  take_line-Kept line p c h =
      Ends-if Kept (length line == 0) (return true) _ _ h (run_command-Kept _ _ _ c h)

  pub main_loop-Kept :
      (input : List Bytes) (p : Program S C F)
      → ((name : Bytes) → Asked input name → Chosen name)
      → Kept p
      → Ends Kept (Program.main_loop os lib local input p)
  unfolding Program.main_loop
  main_loop-Kept [] p c h =
      Ends-bind Kept _ _ (take_line-Kept (codes "q") p (c _ refl) h) (λ _ s k. k)
  main_loop-Kept (line ∷ lines) p c h =
      Ends-bind Kept _ _ (take_line-Kept line p (c _ (inl refl)) h) (λ more s k.
        Ends-if Kept more _ (return tt) s (main_loop-Kept lines s (λ n a. c n (inr a)) k) k)
