-- ===== src/Tests/Handshakes.antt =====
-- Examples for the key exchange.
use cybersec_proj.Base.Int.{ℤ, pos}
use cybersec_proj.RsaCrypto.Laws.{IsGenuine}
use cybersec_proj.Handshake.Server.{Offer}
use cybersec_proj.Certificate.{Certificate, RsaKey}
use cybersec_proj.Base.{
  ℕ, ◌≡◌, refl, ok, Ends, Bytes, [], ◌∷◌, length, arith, codes, some, Option, bytes_eq, Bool, true,
  false, if◌then◌else◌, suc,
}
use cybersec_proj.Connection.Pipe.{Pipe, pipe_stream}
use cybersec_proj.Protocol.{hmac_len}
use cybersec_proj.Nonce.{Nonce}
use cybersec_proj.Openssl.Toy.{toy}
use cybersec_proj.Crypto.{initial_statics}
use cybersec_proj.Handshake.{Party, Keys, party}
use cybersec_proj.Handshake.Server
use cybersec_proj.Handshake.Client
use cybersec_proj.Handshake.Agreement.{handshakes_agree}
use cybersec_proj.Handshake.Authentic.{FromServer, client_authentic}
use cybersec_proj.Handshake.AuthenticClient.{FromClient, server_authentic}
use cybersec_proj.Server.Confined.{Reach}
use cybersec_proj.Execute
use cybersec_proj.Execute.{Host}
use cybersec_proj.Execute.Laws.{execute_confined}
use cybersec_proj.Tests.Data.{carrying, hello}
use cybersec_proj.Tests.Disk.{Disk, disk}
use cybersec_proj.Tests.Peers.{
  toy_libs, bob_cm, server_cm, bob, server, counting-IsSeeded, toy_rsa-IsSoundRsa, toy_rsa, tag,
}

-- Both runs, with the bytes that pass between the two ends.
abbrev Agreed : Type 0
Agreed =
    (up down : Bytes) × (keys : Keys) × (c s : Party Pipe ℕ) × (Client.handshake toy_libs bob_cm
        (party (carrying down) 7)
      ≡ ok keys c)
    × (Server.handshake toy_libs server_cm (party (carrying up) 40) ≡ ok keys s)
    × (c.sock.outgoing ≡ up)
    × (s.sock.outgoing ≡ down)
    × (c.sock.incoming ≡ [])
    × (s.sock.incoming ≡ [])
    × (length keys.auth_key ≡ hmac_len)

agreed : Agreed
agreed =
    handshakes_agree toy_libs pipe_stream counting-IsSeeded toy_rsa-IsSoundRsa bob server carrying 7
      40 (λ bs. refl) (λ bs. refl) (omega arith) (omega arith)

handshakes_agree_example : Agreed
handshakes_agree_example =
    handshakes_agree toy_libs pipe_stream counting-IsSeeded toy_rsa-IsSoundRsa bob server carrying 7
      40 (λ bs. refl) (λ bs. refl) (omega arith) (omega arith)

-- The owner of every key has signed whatever has a signature that the toy accepts.
abbrev Signed : Bytes → Bytes → Type 0
Signed key text = (signature : Bytes) × (toy_rsa.verify key text signature ≡ some (pos 1))

signed_by :
    (sig text : Bytes) (b : Bool) (n : ℕ)
    → bytes_eq sig text ≡ b
    → ◌≡◌ {A = Option ℤ} (some (pos (if b then 1 else 0))) (some (pos (suc n)))
    → some (pos (if bytes_eq sig text then 1 else 0)) ≡ some (pos 1)
signed_by sig text false n e h = ground arith
signed_by sig text true n e h = rw e refl

toy_rsa-IsGenuine : IsGenuine toy_rsa Signed
toy_rsa-IsGenuine = record {
  genuine = λ key text sig n e. (sig, signed_by sig (tag text) (bytes_eq sig (tag text)) n refl e);
}

client_authentic_example :
    (nonce : Nonce) × (p1 : Party Pipe ℕ) × (Client.m1 toy_libs bob_cm (party (carrying agreed.1) 7)
      ≡ ok nonce p1)
    × FromServer toy_libs bob_cm Signed nonce agreed.2
client_authentic_example =
    client_authentic toy_libs bob_cm toy_rsa-IsGenuine (party (carrying agreed.1) 7) agreed.3
      agreed.2 agreed.5

server_authentic_example :
    (cert : Certificate Bytes) × (n : Nonce) × (p1 : Party Pipe ℕ) × (q1 : Party Pipe ℕ)
    × (key : RsaKey Bytes) × (offer : Offer) × (p2 : Party Pipe ℕ) × (Server.m1 toy_libs server_cm
          (party (carrying agreed.0) 40)
        ≡ ok (cert, n) p1)
    × (Server.generate_keys toy_libs server_cm p1 ≡ ok (agreed.2, offer.nonce_server) q1)
    × (Server.m2 toy_libs server_cm cert n p1 ≡ ok (key, offer) p2)
    × (offer.keys ≡ agreed.2)
    × (Server.m3 toy_libs server_cm key offer p2 ≡ ok tt agreed.4)
    × FromClient toy_libs server_cm Signed cert offer.nonce_server
server_authentic_example =
    server_authentic toy_libs server_cm toy_rsa-IsGenuine (party (carrying agreed.0) 40) agreed.4
      agreed.2 agreed.6

-- A session with `bob`, who closes after the handshake.
abbrev host : Host Pipe ℕ Disk
host = record {
  sock = carrying agreed.0;
  rng = 40;
  statics = initial_statics;
  fs = record { names = codes "notes.txt" ∷ []; content = λ p. some hello };
}

execute_confined_example :
    Ends (λ h'. Reach disk host.fs h'.fs) (Execute.execute toy_libs toy server_cm disk 3 host)
execute_confined_example = execute_confined toy_libs toy server_cm disk 3 host
