-- ===== src/Tests/Peers.antt =====
-- A small random source, certificates and RSA operations that behave as the handshake assumes, and the
-- managers of a client `bob` and a server, for the examples.
use cybersec_proj.Base.{
  ℕ, zero, suc, ◌+◌, ◌≤◌, ◌≡◌, refl, true, Bytes, [], ◌∷◌, ◌++◌, some, arith, take, codes, length,
  length-take, length-append, replicate, bytes_eq, bytes_eq_refl, if◌then◌else◌,
}
use cybersec_proj.Base.Int.{pos}
use cybersec_proj.Connection.Pipe.{Pipe, pipe}
use cybersec_proj.Random.{Random, IsSeeded}
use cybersec_proj.CertManager.{CertManager, X509}
use cybersec_proj.CertManager.Laws.{here, there}
use cybersec_proj.RsaCrypto.{Rsa}
use cybersec_proj.Handshake.{Libs}
use cybersec_proj.Handshake.Setup.{IsSoundRsa, Identity}

length-replicate : (n b : ℕ) → length (replicate n b) ≡ n
length-replicate zero b = refl
length-replicate (suc n) b = omega (arith, length-replicate n b)

-- A source that counts its calls.
abbrev pub counting : Random ℕ
counting = record {
  status = λ g. true;
  poll = λ g. (true, g);
  bytes = λ g n. (some (replicate n g), g + 1);
}

abbrev pub Any : ℕ → Type 0
Any g = 0 ≤ g

pub counting-IsSeeded : IsSeeded counting Any
counting-IsSeeded = record {
  ready = λ g h. refl;
  fresh = λ g n h. (replicate n g, g + 1, refl, length-replicate n g, omega arith);
}

abbrev pub tag : Bytes → Bytes
tag m = take 32 (m ++ replicate 32 0)

abbrev pub toy_rsa : Rsa ℕ Bytes
toy_rsa = record {
  new_md_ctx = true;
  new_cipher_ctx = true;
  sign = λ key m. some (tag m);
  verify = λ key m sig. some (pos (if bytes_eq sig (tag m) then 1 else 0));
  seal = λ g key m. (some (b'k' ∷ [], m, replicate 16 g), g + 1);
  unwrap = λ key ek. some (ek ++ key);
  decrypt = λ secret iv payload. some payload;
}

length-tag : (m : Bytes) → length (tag m) ≡ 32
length-tag m = omega (arith, length-take 32 (m ++ replicate 32 0), length-append m (replicate 32 0))

pub toy_rsa-IsSoundRsa : IsSoundRsa toy_rsa (λ a b. a ≡ b) Any
toy_rsa-IsSoundRsa = record {
  md_ctx = refl;
  cipher_ctx = refl;
  signs = λ a b m e. (
    tag m,
    refl,
    rw (bytes_eq_refl (tag m)) refl,
    omega (arith, length-tag m),
    omega (arith, length-tag m),
  );
  seals = λ a b g m e h. (
    b'k' ∷ [],
    m,
    replicate 16 g,
    (b'k' ∷ []) ++ b,
    g + 1,
    refl,
    refl,
    refl,
    omega arith,
    omega arith,
    refl,
    refl,
    omega arith,
  );
}

-- Certificates that are their own texts, keys and subject lines.
abbrev pub toy_libs : Libs Pipe ℕ Bytes Bytes
toy_libs = record {
  os = pipe;
  random = counting;
  codec = record { d2i = λ text. some text; i2d = λ x. some x; get_pubkey = λ x. some x };
  rsa = toy_rsa;
}

abbrev pub trusting : X509 Bytes
trusting = record {
  new_ctx = true;
  init_ctx = λ x. true;
  verify_cert = λ x. true;
  oneline = λ x. x;
}

abbrev bob_x509 : Bytes
bob_x509 = codes "/CN=bob"

abbrev server_x509 : Bytes
server_x509 = codes "/CN=server"

abbrev pub bob_cm : CertManager Bytes Bytes
bob_cm = record {
  cert = some bob_x509;
  privkey = some bob_x509;
  store = trusting;
  auth_peers_list = codes "server" ∷ [];
}

abbrev pub server_cm : CertManager Bytes Bytes
server_cm = record {
  cert = some server_x509;
  privkey = some server_x509;
  store = trusting;
  auth_peers_list = codes "alice" ∷ codes "bob" ∷ [];
}

pub bob : Identity toy_libs (λ a b. a ≡ b) bob_cm server_cm
bob = record {
  x509 = bob_x509;
  public = bob_x509;
  private = bob_x509;
  text = bob_x509;
  holds_cert = refl;
  holds_key = refl;
  matches = refl;
  certifies = refl;
  written = refl;
  parsed = refl;
  some_text = omega arith;
  fits = omega arith;
  new_ctx = refl;
  init_ctx = refl;
  valid = refl;
  named = there (here (codes "/") [] refl);
}

pub server : Identity toy_libs (λ a b. a ≡ b) server_cm bob_cm
server = record {
  x509 = server_x509;
  public = server_x509;
  private = server_x509;
  text = server_x509;
  holds_cert = refl;
  holds_key = refl;
  matches = refl;
  certifies = refl;
  written = refl;
  parsed = refl;
  some_text = omega arith;
  fits = omega arith;
  new_ctx = refl;
  init_ctx = refl;
  valid = refl;
  named = here (codes "/") [] refl;
}
