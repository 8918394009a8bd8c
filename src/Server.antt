-- ===== src/Server.antt =====
-- src/server/client.h and client.cpp: the server's side of one session. A `Client` object works on
-- its link, its two string streams and the file system.
pub mod Reply
pub mod Confined
pub mod Store
pub mod Accept
pub mod Request
pub mod Round
pub mod RoundStor
pub mod RoundStatus
pub mod Retrieve
pub mod Directory
use cybersec_proj.Base.{
  ℕ, zero, suc, ◌+◌, ◌-◌, ◌%◌, Bool, true, false, not, ◌&&◌, Option, some, none, List, [], ◌∷◌,
  ◌++◌, Bytes, codes, bytes_eq, length, ltb, leb, ◌==◌, if◌then◌else◌, M, ◌>>=◌, ◌>>◌, return, gets,
  modify, undefined, defined, zoom,
}
use cybersec_proj.Base.Int.{ℤ, exceeds, to_count, pos, negsuc}
use cybersec_proj.Protocol.{
  ok_status, bad_file, server_error, syntax_error, command_not_implemented, buffer_size,
  max_file_size, parola,
}
use cybersec_proj.Text.{Istream, from_text, decimal, c_string, extract, extract_int64}
use cybersec_proj.Openssl.{Openssl}
use cybersec_proj.Connection.{Socket}
use cybersec_proj.Crypto
use cybersec_proj.Crypto.{Link}

-- What the commands ask of the operating system. `remove` tells whether it succeeded; `list` gives
-- the names in a directory; `read` is none where the path cannot be opened for reading, and otherwise
-- the bytes that can be read; `tell` is what `tellg` then answers at the end, which is their number for
-- a regular file and 2^63 - 1 for a directory;
-- `create` opens a file for writing and empties it; `append` is a write at the end of that file.
pub record FileSystem (F : Type 0) : Type 0 where
  pub remove : F → Bytes → Bool × F
  pub list : F → Bytes → Option (List Bytes)
  pub read : F → Bytes → Option Bytes
  pub tell : F → Bytes → ℤ
  pub create : F → Bytes → Option F
  pub append : F → Bytes → Bytes → F

-- The object: `link` stands for `connection` and `crypto`, `is` and `os` are the streams.
pub record Client (S C F : Type 0) : Type 0 where
  pub link : Link S C
  pub is : Istream
  pub os : Bytes
  pub fs : F

abbrev pub server_root : Bytes
server_root = codes "root"

-- `SERVER_ROOT + "/" + filename`.
abbrev pub full_path : Bytes → Bytes
full_path filename = server_root ++ (b'/' ∷ filename)

-- `n << endl << endl`.
abbrev pub status_line : ℕ → Bytes
status_line n = decimal n ++ (b'\n' ∷ b'\n' ∷ [])

-- `OK << endl << "Size: " << n << endl << endl`.
abbrev pub size_line : ℕ → Bytes
size_line n = decimal ok_status ++ (b'\n' ∷ (codes "Size: " ++ (decimal n ++ (b'\n' ∷ b'\n' ∷ []))))

-- The same for an `int64_t`.
abbrev pub size_reply : ℤ → Bytes
size_reply (pos n) = size_line n
size_reply (negsuc n) =
    decimal ok_status ++ (b'\n' ∷ (codes "Size: -" ++ (decimal (n + 1) ++ (b'\n' ∷ b'\n' ∷ []))))

module _ {S C F : Type 0} where
  abbrev pub on_link : {A : Type 0} → M (Link S C) A → M (Client S C F) A
  on_link = zoom (λ c. c.link) (λ l c. record c { link = l })

  -- `os << text`.
  abbrev pub write : Bytes → M (Client S C F) (Unit {0})
  write text = modify λ c. record c { os = c.os ++ text }

  -- `is >> text`, for a variable that holds the empty text before.
  unfoldable pub read_word : M (Client S C F) Bytes
  read_word = do
    (w, is') ← gets λ c. extract c.is
    modify λ c. record c { is = is' }
    return (elim w [ none ↦ [] | some text ↦ text ])

  -- `is >> size`, for a variable without a value before: `none` is a variable still without one.
  unfoldable pub read_int64 : M (Client S C F) (Option ℤ)
  read_int64 = do
    (n, is') ← gets λ c. extract_int64 c.is
    modify λ c. record c { is = is' }
    return n

module _ {S C F : Type 0} (os : Socket S) (lib : Openssl C) (files : FileSystem F) where
  -- `sendCmd`: what was written goes out as one message.
  unfoldable pub send_cmd : M (Client S C F) (Unit {0})
  send_cmd = do
    buffer ← gets λ c. c.os
    if ltb 0 (length buffer)
        then (do _ ← on_link (Crypto.send os lib buffer); return tt)
        else return tt
    modify λ c. record c { os = [] }

  -- `os << status << endl << endl; sendCmd();`
  unfoldable pub reply : ℕ → M (Client S C F) (Unit {0})
  reply status = do write (status_line status); send_cmd

  -- The body of the loop of `recvCmd` after its `recv`: `prev` is the second place of the shift
  -- register, `next` the loop from the next place of the buffer on.
  pub keep_char : (ℕ → M (Client S C F) Bytes) → ℕ → Bytes → M (Client S C F) Bytes
  keep_char next prev [] = do rest ← next prev; return (0 ∷ rest)
  keep_char next prev (c ∷ _) =
      if (prev == b'\n') && (c == b'\n')
      then return (c ∷ [])
      else (do rest ← next c; return (c ∷ rest))

  -- The loop of `recvCmd` with `rounds` places of the buffer left. The result is what it writes into
  -- the buffer, which is zero elsewhere.
  pub recv_cmd_loop : ℕ → ℕ → M (Client S C F) Bytes
  recv_cmd_loop zero prev = return []
  recv_cmd_loop (suc rounds) prev = do
    got ← on_link (Crypto.recv os lib 1)
    keep_char (recv_cmd_loop rounds) prev got

  -- `recvCmd`: one command into `is`.
  pub recv_cmd : M (Client S C F) (Unit {0})
  recv_cmd = do
    buffer ← recv_cmd_loop (buffer_size - 1) 0
    modify λ c. record c { is = from_text (c_string buffer) }

  pub recv_body_fragment : ℕ → M (Client S C F) Bytes
  recv_body_fragment len = on_link (Crypto.recv os lib len)

  -- `cmd_dele` once the name is read.
  pub dele_named : Bytes → M (Client S C F) (Unit {0})
  dele_named filename = if not (parola filename) then reply bad_file else (do
    (done, fs') ← gets λ c. files.remove c.fs (full_path filename)
    modify λ c. record c { fs = fs' }
    if done then reply ok_status else reply bad_file)

  pub cmd_dele : M (Client S C F) (Unit {0})
  cmd_dele = do filename ← read_word; dele_named filename

  -- The listing: each name but "." and "..", and a line feed.
  unfoldable pub file_list : List Bytes → Bytes
  file_list [] = []
  file_list (name ∷ names) =
      (if bytes_eq name (codes ".")
        then []
        else if bytes_eq name (codes "..")
        then []
        else name ++ (b'\n' ∷ []))
      ++ file_list names

  pub cmd_list : M (Client S C F) (Unit {0})
  cmd_list = do
    names ← gets λ c. files.list c.fs server_root
    elim names [
      | none ↦ reply server_error
      | some found ↦ (do
        let buffer = file_list found
        write (size_line (length buffer))
        send_cmd
        write buffer
        send_cmd)
    ]

  pub cmd_quit : M (Client S C F) (Unit {0})
  cmd_quit = reply ok_status

  -- The loop of `cmd_retr` over the bytes of the file that are left.
  unfoldable pub retr_loop : Bytes → ℕ → M (Client S C F) (Unit {0})
  retr_loop [] count = return tt
  retr_loop (c ∷ cs) count = do
    write (c ∷ [])
    if count % buffer_size == 0 then send_cmd else return tt
    retr_loop cs (count + 1)

  -- `cmd_retr` once the file is open, with the answer of `tellg` at its end and the bytes that `get` gives.
  pub send_content : ℤ → Bytes → M (Client S C F) (Unit {0})
  send_content size content = do write (size_reply size); send_cmd; retr_loop content 0; send_cmd

  -- `cmd_retr` once the name is read.
  pub retr_named : Bytes → M (Client S C F) (Unit {0})
  retr_named filename = if not (parola filename) then reply bad_file else (do
    file ← gets λ c. files.read c.fs (full_path filename)
    size ← gets λ c. files.tell c.fs (full_path filename)
    elim file [ none ↦ reply bad_file | some content ↦ send_content size content ])

  pub cmd_retr : M (Client S C F) (Unit {0})
  cmd_retr = do filename ← read_word; retr_named filename

  -- The loop of `cmd_stor`, with the count of bytes still to be received. Each round receives at
  -- least one byte; `fuel` bounds the rounds, and a run out of fuel is no run of the code.
  unfoldable pub stor_loop : ℕ → ℕ → Bytes → M (Client S C F) (Unit {0})
  stor_loop fuel zero path = return tt
  stor_loop zero (suc remaining) path = undefined
  stor_loop (suc fuel) (suc remaining) path = do
    fragment ←
        recv_body_fragment (if ltb buffer_size (suc remaining) then buffer_size else suc remaining)
    modify λ c. record c { fs = files.append c.fs path fragment }
    stor_loop fuel (suc remaining - length fragment) path

  -- `cmd_stor` once the file is open: the go-ahead, then the content.
  pub stor_content : ℕ → Bytes → M (Client S C F) (Unit {0})
  stor_content size path = do reply ok_status; stor_loop size size path

  -- `cmd_stor` from the test of the size on.
  pub stor_sized : Bytes → ℤ → M (Client S C F) (Unit {0})
  stor_sized filename size =
      if exceeds size max_file_size then reply command_not_implemented else (do
        opened ← gets λ c. files.create c.fs (full_path filename)
        elim opened [
          | none ↦ reply bad_file
          | some fs' ↦ (do
            modify λ c. record c { fs = fs' }
            stor_content (to_count size) (full_path filename))
        ])

  -- A size that the text does not give is a variable without a value.
  pub stor_given : Bytes → Option ℤ → M (Client S C F) (Unit {0})
  stor_given filename none = undefined
  stor_given filename (some size) = stor_sized filename size

  -- `cmd_stor` from the test of the tag on.
  pub stor_tagged : Bytes → Bytes → Option ℤ → M (Client S C F) (Unit {0})
  stor_tagged filename tag size =
      if not (bytes_eq tag (codes "Size:")) then reply syntax_error else stor_given filename size

  -- `cmd_stor` once the name is read.
  pub stor_named : Bytes → M (Client S C F) (Unit {0})
  stor_named filename =
      if not (parola filename)
      then reply bad_file
      else (do tag ← read_word; size ← read_int64; stor_tagged filename tag size)

  pub cmd_stor : M (Client S C F) (Unit {0})
  cmd_stor = do filename ← read_word; stor_named filename

  pub cmd_unknown : M (Client S C F) (Unit {0})
  cmd_unknown = reply command_not_implemented

  -- The choice of `execute` by the first word. The answer tells whether the loop goes on.
  unfoldable pub dispatch : Bytes → M (Client S C F) Bool
  dispatch cmd =
      if bytes_eq cmd (codes "DELE")
      then (do cmd_dele; return true)
      else if bytes_eq cmd (codes "LIST")
      then (do cmd_list; return true)
      else if bytes_eq cmd (codes "QUIT")
      then (do cmd_quit; return false)
      else if bytes_eq cmd (codes "RETR")
      then (do cmd_retr; return true)
      else if bytes_eq cmd (codes "STOR")
      then (do cmd_stor; return true)
      else (do cmd_unknown; return true)

  -- The branch of `execute` on the state of the stream, `is.good()`.
  pub obey : Bytes → M (Client S C F) Bool
  obey cmd = do good ← gets λ c. c.is.good; if good then dispatch cmd else return true

  -- One round of the loop of `execute`. `cmd` keeps its value from the round before where nothing is
  -- extracted, but then the stream is not good.
  pub round : M (Client S C F) Bool
  round = do recv_cmd; cmd ← read_word; obey cmd

  -- The loop of `execute` for at most `rounds` commands.
  pub command_loop : ℕ → M (Client S C F) (Unit {0})
  command_loop zero = return tt
  command_loop (suc rounds) = do
    more ← round
    let rest = command_loop rounds
    if more then rest else return tt
