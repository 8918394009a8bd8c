-- ===== src/ClientMain/Program.antt =====
-- src/client/main.cpp: the commands of the client and its main loop. What it prints for the user is
-- not modelled, but for the names that `recv_list` prints.
use cybersec_proj.Base.{
  ℕ, zero, suc, ◌-◌, Bool, true, false, not, ◌||◌, Option, some, none, List, [], ◌∷◌, ◌++◌, Bytes,
  codes, bytes_eq, length, drop, replicate, ltb, ◌==◌, if◌then◌else◌, M, ◌>>=◌, ◌>>◌, return, gets,
  modify, undefined, defined, zoom,
}
use cybersec_proj.Base.Int.{ℤ, pos, negsuc, to_count}
use cybersec_proj.Protocol.{buffer_size, max_file_size, ok_status}
use cybersec_proj.Text.{Istream, from_text, decimal, c_string, extract, extract_int64}
use cybersec_proj.Openssl.{Openssl}
use cybersec_proj.Connection.{Socket}
use cybersec_proj.Crypto
use cybersec_proj.Crypto.{Link}
use cybersec_proj.Server.{FileSystem}
use cybersec_proj.ClientMain
use cybersec_proj.ClientMain.{CommandType}

-- What the client asks of its operating system: `stat` is the answer of `is_file`:
-- whether a path is a regular file, and any answer where the call of `stat` fails, since the code then
-- reads a structure that was never written. `reopen` is what the second `open` of a file, in `send_file`,
-- gives: its content, or `none`.
pub record Local (F : Type 0) : Type 0 where
  pub files : FileSystem F
  pub stat : F → Bytes → Bool
  pub reopen : F → Bytes → Option Bytes

-- The globals of the program: `link` stands for `connection` and `crypto`. `out` is what was printed
-- on `cout`.
pub record Program (S C F : Type 0) : Type 0 where
  pub link : Link S C
  pub is : Istream
  pub fs : F
  pub out : Bytes

abbrev pub client_root : Bytes
client_root = codes "downloads/"

-- `while (getline(ss, filename, '/'));`: `segment` is what was read since the last slash.
unfoldable pub basename_loop : Bytes → Bytes → Bytes
basename_loop segment [] = segment
basename_loop segment (c ∷ cs) = basename_loop (if c == b'/' then [] else segment ++ (c ∷ [])) cs

-- The name of `cmd_stor` for a path.
unfoldable pub basename : Bytes → Bytes
basename filepath = basename_loop [] filepath

-- Whether the stream holds a C string in a buffer: a zero byte stands in it.
unfoldable pub has_zero : Bytes → Bool
has_zero [] = false
has_zero (c ∷ cs) = (c == 0) || has_zero cs

-- One round of `while (is >> file) cout << file << endl;`: the lines printed from here on and the stream
-- after them.
abbrev pub print_round : (Istream → Bytes × Istream) → Option Bytes × Istream → Bytes × Istream
print_round next (none, is) = ([], is)
print_round next (some file, is) = let (lines, is') = next is in (file ++ (b'\n' ∷ lines), is')

-- The loop. Each round takes a word, so as many rounds as there are bytes are enough, and one more.
unfoldable pub print_words : ℕ → Istream → Bytes × Istream
print_words zero is = ([], is)
print_words (suc rounds) is = print_round (print_words rounds) (extract is)

module _ {S C F : Type 0} where
  abbrev pub on_link : {A : Type 0} → M (Link S C) A → M (Program S C F) A
  on_link = zoom (λ p. p.link) (λ l p. record p { link = l })

  -- `is >> text`, for a variable that holds the empty text before.
  unfoldable pub read_word : M (Program S C F) Bytes
  read_word = do
    (w, is') ← gets λ p. extract p.is
    modify λ p. record p { is = is' }
    return (elim w [ none ↦ [] | some text ↦ text ])

  -- `is >> number`, for a variable without a value before, which is then used. An `int` has a smaller
  -- range than the int64_t read here; a status outside it is no status of the protocol either way.
  unfoldable pub read_number : M (Program S C F) ℤ
  read_number = do
    (n, is') ← gets λ p. extract_int64 p.is
    modify λ p. record p { is = is' }
    elim n [ none ↦ undefined | some number ↦ return number ]

-- `response == OK`, for a status.
abbrev pub is_status : ℤ → ℕ → Bool
is_status (pos n) status = n == status
is_status (negsuc n) status = false

abbrev pub is_negative : ℤ → Bool
is_negative (pos n) = false
is_negative (negsuc n) = true

-- The commands of `cmd_retr` and `cmd_stor`.
unfoldable pub retr_line : Bytes → Bytes
retr_line filename = codes "RETR " ++ (filename ++ (b'\n' ∷ b'\n' ∷ []))

unfoldable pub stor_line : Bytes → ℕ → Bytes
stor_line filename size =
    codes "STOR "
    ++ (filename ++ (b'\n' ∷ (codes "Size: " ++ (decimal size ++ (b'\n' ∷ b'\n' ∷ [])))))

module _ {S C F : Type 0} (os : Socket S) (lib : Openssl C) (local : Local F) where
  open local use {files, stat, reopen}

  unfoldable pub send_cmd : Bytes → M (Program S C F) (Unit {0})
  send_cmd cmd = on_link (do _ ← Crypto.send os lib cmd; return tt)

  -- `recv_response()` on the globals.
  unfoldable pub receive_response : M (Program S C F) (Unit {0})
  receive_response = do
    is' ← on_link (ClientMain.recv_response os lib)
    modify λ p. record p { is = is' }

  unfoldable pub recv_fragment : ℕ → M (Program S C F) Bytes
  recv_fragment len = on_link (Crypto.recv os lib len)

  -- The loop of `recv_list`: `buffer` keeps what it held where a fragment is shorter, and the flags of
  -- `is` stay as they are when it gets a new text.
  unfoldable pub recv_list_loop : ℕ → Bytes → ℕ → M (Program S C F) (Unit {0})
  recv_list_loop fuel buffer zero = return tt
  recv_list_loop zero buffer (suc remaining) = undefined
  recv_list_loop (suc fuel) buffer (suc remaining) = do
    fragment ←
        recv_fragment (if ltb buffer_size (suc remaining) then buffer_size else suc remaining)
    let buffer' = fragment ++ drop (length fragment) buffer
    defined (has_zero buffer')
    (lines, is') ← gets λ p.
        print_words (suc (length buffer')) (record { unread = c_string buffer'; good = p.is.good })
    modify λ p. record p { is = is'; out = p.out ++ lines }
    recv_list_loop fuel buffer' (suc remaining - length fragment)

  -- `recv_list` once the size is read.
  unfoldable pub list_sized : ℤ → M (Program S C F) (Unit {0})
  list_sized size = if is_negative size then return tt else (do
    modify λ p. record p { is = from_text [] }
    recv_list_loop (to_count size) (replicate buffer_size 0) (to_count size))

  unfoldable pub list_tagged : M (Program S C F) (Unit {0})
  list_tagged = do
    tag ← read_word
    if not (bytes_eq tag (codes "Size:"))
        then return tt
        else (do size ← read_number; list_sized size)

  unfoldable pub recv_list : M (Program S C F) (Unit {0})
  recv_list = do
    response ← read_number
    if is_status response ok_status then list_tagged else return tt

  -- The loop of `recv_file`.
  unfoldable pub recv_file_loop : ℕ → ℕ → Bytes → M (Program S C F) (Unit {0})
  recv_file_loop fuel zero path = return tt
  recv_file_loop zero (suc remaining) path = undefined
  recv_file_loop (suc fuel) (suc remaining) path = do
    fragment ←
        recv_fragment (if ltb buffer_size (suc remaining) then buffer_size else suc remaining)
    modify λ p. record p { fs = files.append p.fs path fragment }
    recv_file_loop fuel (suc remaining - length fragment) path

  -- `recv_file` once the size is read.
  unfoldable pub file_sized : Bytes → ℤ → M (Program S C F) (Unit {0})
  file_sized filename size = if is_negative size then return tt else (do
    modify λ p. record p { is = from_text [] }
    opened ← gets λ p. files.create p.fs (client_root ++ filename)
    elim opened [
      | none ↦ return tt
      | some fs' ↦ (do
        modify λ p. record p { fs = fs' }
        recv_file_loop (to_count size) (to_count size) (client_root ++ filename))
    ])

  unfoldable pub file_tagged : Bytes → M (Program S C F) (Unit {0})
  file_tagged filename = do
    tag ← read_word
    if not (bytes_eq tag (codes "Size:"))
        then return tt
        else (do size ← read_number; file_sized filename size)

  unfoldable pub recv_file : Bytes → M (Program S C F) (Unit {0})
  recv_file filename = do
    response ← read_number
    if is_status response ok_status then file_tagged filename else return tt

  -- `check_and_get_file_size`: the content of a file that can be sent. Its length is the size.
  unfoldable pub check_and_get_file_size : Bytes → M (Program S C F) (Option Bytes)
  check_and_get_file_size filename = do
    regular ← gets λ p. stat p.fs filename
    content ← gets λ p. files.read p.fs filename
    return (
        if not regular then none else elim content [
          | none ↦ none
          | some text ↦ if ltb max_file_size (length text) then none else some text
        ])

  unfoldable pub cmd_remote_list : M (Program S C F) (Unit {0})
  cmd_remote_list = do send_cmd (codes "LIST" ++ (b'\n' ∷ b'\n' ∷ [])); receive_response; recv_list

  unfoldable pub cmd_quit : M (Program S C F) (Unit {0})
  cmd_quit = do send_cmd (codes "QUIT" ++ (b'\n' ∷ b'\n' ∷ [])); receive_response

  unfoldable pub cmd_retr : Bytes → M (Program S C F) (Unit {0})
  cmd_retr [] = return tt
  cmd_retr (c ∷ cs) = do send_cmd (retr_line (c ∷ cs)); receive_response; recv_file (c ∷ cs)

  -- `cmd_stor` once the size is known.
  unfoldable pub put : Bytes → Bytes → Bytes → M (Program S C F) (Unit {0})
  put filepath filename content = do
    send_cmd (stor_line filename (length content))
    receive_response
    response ← read_number
    if is_status response ok_status
        then (do
          file ← gets λ p. reopen p.fs filepath
          on_link (ClientMain.send_file os lib file (length content)))
        else return tt

  unfoldable pub cmd_stor : Bytes → M (Program S C F) (Unit {0})
  cmd_stor [] = return tt
  cmd_stor (c ∷ cs) = do
    checked ← check_and_get_file_size (c ∷ cs)
    elim checked [ none ↦ return tt | some content ↦ put (c ∷ cs) (basename (c ∷ cs)) content ]

  unfoldable pub cmd_dele : Bytes → M (Program S C F) (Unit {0})
  cmd_dele [] = return tt
  cmd_dele (c ∷ cs) = do
    send_cmd (codes "DELE " ++ ((c ∷ cs) ++ (b'\n' ∷ b'\n' ∷ [])))
    receive_response
    response ← read_number
    return tt

  -- The `switch` of `parse_cmd`. The answer tells whether the program goes on: `cmd_quit` exits.
  unfoldable pub run_command : CommandType → Bytes → M (Program S C F) Bool
  run_command CommandType.help arg = return true
  run_command CommandType.r_list arg = do cmd_remote_list; return true
  run_command CommandType.l_list arg = return true
  run_command CommandType.quit arg = do cmd_quit; return false
  run_command CommandType.retr arg = do cmd_retr arg; return true
  run_command CommandType.stor arg = do cmd_stor arg; return true
  run_command CommandType.dele arg = do cmd_dele arg; return true
  run_command CommandType.bad_req arg = return true

  unfoldable pub parse_cmd : M (Program S C F) Bool
  parse_cmd = do str_cmd ← read_word; arg ← read_word; run_command (ClientMain.str2cmd str_cmd) arg

  -- One line of the input.
  unfoldable pub take_line : Bytes → M (Program S C F) Bool
  take_line line = do
    modify λ p. record p { is = from_text line }
    if length line == 0 then return true else parse_cmd

  -- The loop of `main` over the lines of the input; at its end the line is "q".
  unfoldable pub main_loop : List Bytes → M (Program S C F) (Unit {0})
  main_loop [] = do _ ← take_line (codes "q"); return tt
  main_loop (line ∷ lines) = do
    more ← take_line line
    let rest = main_loop lines
    if more then rest else return tt
