-- ===== src/Listener.antt =====
-- src/server/server.h and server.cpp, and `main` of src/server/main.cpp. What the operating system does
-- for a listening socket is a parameter over an unknown state, and so is `atoi`.
pub mod Names
pub mod Laws
use cybersec_proj.Base.{
  ℕ, zero, suc, ◌+◌, ◌-◌, ◌%◌, ◌^◌, Bool, true, false, ◌&&◌, ◌||◌, ◌==◌, Bytes, codes, List, [],
  ◌∷◌, ◌++◌, Option, none, some, if◌then◌else◌, length, Outcome, ok, throws, M, ◌>>=◌, ◌>>◌, return,
  gets, modify, check, throw,
}
use cybersec_proj.Base.Int.{ℤ, pos, negsuc}
use cybersec_proj.Exception.{Ex, ex_bind, ex_listen, ex_network, ex_user_input, system_error}
use cybersec_proj.Certificate.{Pem}
use cybersec_proj.CertManager
use cybersec_proj.CertManager.{CertManager, Trust}
use cybersec_proj.Execute.{handled}

-- `bind` tells whether ::bind on the port of any address answers 0, `listen` whether ::listen does, and
-- `accept` gives what a `Connection` on the result of ::accept is. `start` tells whether the system starts
-- a thread: the constructor of `std::thread` throws `std::system_error` if not. `names` is the text of
-- conf/authorized_clients.txt, empty if the file cannot be opened.
pub record Inet (N S : Type 0) : Type 0 where
  pub bind : ℕ → Bool
  pub listen : Bool
  pub accept : N → S × N
  pub start : N → Bool × N
  pub names : Bytes
  pub atoi : Bytes → ℤ

-- `(uint16_t) n`.
abbrev pub to_uint16 : ℤ → ℕ
to_uint16 (pos n) = n % 2 ^ 16
to_uint16 (negsuc n) = 2 ^ 16 - (n % 2 ^ 16 + 1)

-- `while (getline(in, clientName)) authClientList.push_back(clientName);`: `segment` is what was read of
-- the current line. A last line without an end counts if it is not empty.
abbrev last_line : Bytes → List Bytes
last_line [] = []
last_line (b ∷ bs) = (b ∷ bs) ∷ []

pub lines_loop : Bytes → Bytes → List Bytes
lines_loop segment [] = last_line segment
lines_loop segment (c ∷ cs) =
    let rest = lines_loop (if c == b'\n' then [] else segment ++ (c ∷ [])) cs in
    if c == b'\n' then segment ∷ rest else rest

unfoldable pub lines : Bytes → List Bytes
lines text = lines_loop [] text

-- A `Server`: the descriptor and the address are the operating system's.
pub record Server (K P : Type 0) : Type 0 where
  pub cm : CertManager K P
  pub auth_client_list : List Bytes

-- The state of `main`: the operating system's, and the connections that a thread was started for, the
-- last first.
pub record Daemon (N S : Type 0) : Type 0 where
  pub net : N
  pub started : List S

module _ {N S K P R T : Type 0} (inet : Inet N S) (trust : Trust K R T) (certs : Pem K)
    (crls : Pem R) (keys : Pem P) where
  open inet use {bind, listen, names, atoi}

  -- `Server("::0", port)`.
  unfoldable pub init : ℕ → M (Daemon N S) (Server K P)
  init port = do
    check (bind port) ex_bind
    check listen ex_listen
    let auth_client_list = lines names
    cm ← CertManager.init trust certs crls keys (codes "server") auth_client_list
    return (record { cm = cm; auth_client_list = auth_client_list })

  -- `accept()`.
  unfoldable pub accept : M (Daemon N S) S
  accept = do
    (sock, net') ← gets λ d. inet.accept d.net
    modify λ d. record d { net = net' }
    return sock

  -- The loop of `main`, for `rounds` rounds: it does not end of itself.
  unfoldable pub accept_loop : ℕ → M (Daemon N S) (Unit {0})
  accept_loop zero = return tt
  accept_loop (suc rounds) = do
    sock ← accept
    (running, net') ← gets λ d. inet.start d.net
    modify λ d. record d { net = net' }
    check running system_error
    modify λ d. record d { started = sock ∷ d.started }
    accept_loop rounds

  -- The body of the `try` of `main`, on its arguments without the name of the program.
  unfoldable pub serve : List Bytes → ℕ → M (Daemon N S) (Unit {0})
  serve [] rounds = throw ex_user_input
  serve (port ∷ []) rounds = do server ← init (to_uint16 (atoi port)); accept_loop rounds
  serve (port ∷ debug ∷ []) rounds = do server ← init (to_uint16 (atoi port)); accept_loop rounds
  serve (port ∷ debug ∷ more ∷ rest) rounds = throw ex_user_input

  -- Whether the arguments and the operating system let the constructor come to its certificates.
  abbrev pub can_start : List Bytes → Bool
  can_start [] = false
  can_start (port ∷ []) = bind (to_uint16 (atoi port)) && listen
  can_start (port ∷ debug ∷ []) = bind (to_uint16 (atoi port)) && listen
  can_start (port ∷ debug ∷ more ∷ rest) = false

  abbrev pub main_clauses : List Ex
  main_clauses = ex_network ∷ ex_user_input ∷ []

  unfoldable pub main : List Bytes → ℕ → M (Daemon N S) (Option Ex)
  main args rounds d = handled main_clauses (serve args rounds d)
