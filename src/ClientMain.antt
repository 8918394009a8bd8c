-- ===== src/ClientMain.antt =====
-- src/client/main.cpp: the client program. Its global `connection` and `crypto` are a link.
pub mod Upload
pub mod Response
pub mod Program
pub mod Typed
pub mod Printing
pub mod Listing
pub mod Main
pub mod Ending
pub mod Confined
pub mod Fetch
pub mod Replies
use cybersec_proj.Base.{
  ℕ, zero, suc, ◌-◌, ◌+◌, Bool, ◌&&◌, Bytes, [], ◌∷◌, codes, bytes_eq, ltb, leb, ◌==◌, length, take,
  drop, if◌then◌else◌, M, ◌>>=◌, ◌>>◌, return, undefined, defined, Option, none, some,
}
use cybersec_proj.Protocol.{buffer_size}
use cybersec_proj.Text.{Istream, from_text, c_string}
use cybersec_proj.Openssl.{Openssl}
use cybersec_proj.Connection.{Socket}
use cybersec_proj.Crypto
use cybersec_proj.Crypto.{Link}

pub data CommandType : Type 0 where
  help r_list l_list quit retr stor dele bad_req : CommandType

pub str2cmd : Bytes → CommandType
str2cmd str =
    if bytes_eq str (codes "help")
    then help
    else if bytes_eq str (codes "lls")
    then l_list
    else if bytes_eq str (codes "rls")
    then r_list
    else if bytes_eq str (codes "q")
    then quit
    else if bytes_eq str (codes "get")
    then retr
    else if bytes_eq str (codes "put")
    then stor
    else if bytes_eq str (codes "rm")
    then dele
    else bad_req

module _ {S C : Type 0} (os : Socket S) (lib : Openssl C) where
  pub send_fragment : Bytes → M (Link S C) ℕ
  send_fragment buffer = Crypto.send os lib buffer

  -- The loop of `send_file` over the bytes of the file not read yet. A read that comes short would
  -- send bytes of the buffer that are not the file's. `fuel` bounds the rounds, and a run out of fuel
  -- is no run of the code.
  pub send_file_loop : ℕ → Bytes → ℕ → M (Link S C) (Unit {0})
  send_file_loop fuel file zero = return tt
  send_file_loop zero file (suc remaining) = undefined
  send_file_loop (suc fuel) file (suc remaining) = do
    let fragment = if ltb buffer_size (suc remaining) then buffer_size else suc remaining
    defined (leb fragment (length file))
    _ ← send_fragment (take fragment file)
    send_file_loop fuel (drop fragment file) (suc remaining - fragment)

  -- `send_file` with what its `open` gives: the content, or `none`, which is only reported.
  pub send_file : Option Bytes → ℕ → M (Link S C) (Unit {0})
  send_file none size = return tt
  send_file (some file) size = send_file_loop size file size

  -- The loop of `recv_response`: what `shift` holds is the byte before.
  unfoldable pub next_byte : (ℕ → M (Link S C) Bytes) → ℕ → Bytes → M (Link S C) Bytes
  next_byte next shift [] = do rest ← next shift; return (0 ∷ rest)
  next_byte next shift (c ∷ _) =
      if (shift == b'\n') && (c == b'\n')
      then return (c ∷ [])
      else (do rest ← next c; return (c ∷ rest))

  unfoldable pub recv_response_loop : ℕ → ℕ → M (Link S C) Bytes
  recv_response_loop zero shift = return []
  recv_response_loop (suc rounds) shift = do
    got ← Crypto.recv os lib 1
    next_byte (recv_response_loop rounds) shift got

  -- `recv_response`: the stream that it leaves in `is`.
  unfoldable pub recv_response : M (Link S C) Istream
  recv_response = do
    buffer ← recv_response_loop (buffer_size - 1) 0
    return (from_text (c_string buffer))
