-- ===== src/Tests/Programs.antt =====
-- Examples for the two `main` functions.
use cybersec_proj.Base.{
  ℕ, ◌+◌, ◌≡◌, ◌↔◌, refl, ok, throws, true, Ends, Bytes, List, [], ◌∷◌, ◌++◌, codes, some, none,
  length, inl, inr, false,
}
use cybersec_proj.Base.Int.{ℤ, pos}
use cybersec_proj.Exception.{ex_certificate, system_error}
use cybersec_proj.Connection.{Network}
use cybersec_proj.Connection.Pipe.{Pipe}
use cybersec_proj.Openssl.Toy.{toy}
use cybersec_proj.Certificate.{Pem, read_pem, from_user_name}
use cybersec_proj.CertManager
use cybersec_proj.CertManager.{Trust, CertManager, verify_peer}
use cybersec_proj.Listener
use cybersec_proj.Listener.{Inet, Server, Daemon}
use cybersec_proj.Listener.Laws.{main_escapes, Leaves, now}
use cybersec_proj.Listener.Names.{blank_line_authorises}
use cybersec_proj.ClientMain.Program.{Local}
use cybersec_proj.ClientMain.Main
use cybersec_proj.ClientMain.Main.{Desk}
use cybersec_proj.ClientMain.Confined.{Saved, Asked}
use cybersec_proj.ClientMain.Ending.{main_confined}
use cybersec_proj.Tests.Data.{quiet, carrying}
use cybersec_proj.Tests.Disk.{Disk, disk}
use cybersec_proj.Tests.Peers.{toy_libs, trusting}

abbrev port_number : Bytes → ℤ
port_number text = pos (length text)

-- A host whose connections are numbered, with a blank line in the file of names.
abbrev inet : Inet ℕ ℕ
inet = record {
  bind = λ port. true;
  listen = true;
  accept = λ n. (n, n + 1);
  start = λ n. (true, n);
  names = codes "alice" ++ (b'\n' ∷ b'\n' ∷ codes "bob");
  atoi = port_number;
}

-- Certificates that are their own subject lines, revocation lists and stores that hold nothing.
abbrev trust : Trust Bytes Bytes Bytes
trust = record {
  new_store = some [];
  add_cert = λ t k. some k;
  add_crl = λ t r. some t;
  crl_check = λ t. t;
  x509 = λ t. trusting;
}

abbrev present : Pem Bytes
present = λ path. some (some (codes "/CN=server"))

abbrev missing : Pem Bytes
missing = λ path. none

abbrev daemon : Daemon ℕ ℕ
daemon = record { net = 0; started = [] }

abbrev arguments : List Bytes
arguments = codes "4242" ∷ []

main_escapes_example :
    (Listener.main inet trust missing missing missing arguments 5 daemon
      ≡ throws ex_certificate daemon)
    ↔ ((true ≡ true) × Leaves inet trust missing missing missing 5 daemon daemon ex_certificate)
main_escapes_example =
    main_escapes inet trust missing missing missing arguments 5 daemon daemon ex_certificate

-- Without certificates, `main` of the server ends by ExCertificate.
escaped :
    Listener.main inet trust missing missing missing arguments 5 daemon
    ≡ throws ex_certificate daemon
unfolding CertManager.init read_pem
escaped =
    (main_escapes inet trust missing missing missing arguments 5 daemon daemon ex_certificate).1
      (refl, inl (refl, refl, refl))

-- The server on that host.
abbrev made : Server Bytes Bytes
made = record {
  cm = record {
    cert = some (codes "/CN=server");
    privkey = some (codes "/CN=server");
    store = trusting;
    auth_peers_list = Listener.lines inet.names;
  };
  auth_client_list = Listener.lines inet.names;
}

-- A host that starts no thread: `main` of the server ends by std::system_error.
abbrev tired : Inet ℕ ℕ
tired = record inet { start = λ n. (false, n) }

refused :
    Listener.main tired trust present present present arguments 5 daemon
    ≡ throws system_error (record daemon { net = 1 })
unfolding Listener.init CertManager.init read_pem from_user_name
refused =
    (main_escapes tired trust present present present arguments 5 daemon (record daemon { net = 1 })
        system_error).1
      (refl, inr (made.cm, refl, now refl, refl))

blank_line_authorises_example : verify_peer made.cm (some (codes "/CN=mallory")) quiet ≡ ok tt quiet
unfolding Listener.init CertManager.init read_pem from_user_name
blank_line_authorises_example =
    blank_line_authorises inet trust present present present 4242 daemon daemon made
      (codes "/CN=mallory") (codes "alice") (codes "bob") (codes "/") (codes "mallory") quiet refl
      refl refl refl refl refl

abbrev network : Network Pipe
network = record { socket = true; connect = λ hostname port. some (carrying []) }

abbrev desk : Desk ℕ Disk
desk = record { rng = 7; fs = record { names = []; content = λ p. none }; out = [] }

abbrev machine : Local Disk
machine = record { files = disk; stat = λ d path. true; reopen = λ d path. d.content path }

abbrev typed : List Bytes
typed = codes "::1" ∷ codes "4242" ∷ codes "bob" ∷ []

abbrev input : List Bytes
input = codes "get notes.txt" ∷ []

main_confined_example :
    Ends
      (λ d'. Saved disk (Asked input) desk.fs d'.fs)
      (Main.main toy_libs toy machine network port_number trust present present present typed input
        desk)
main_confined_example =
    main_confined toy_libs toy machine network port_number trust present present present typed input
      desk
