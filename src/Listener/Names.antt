-- ===== src/Listener/Names.antt =====
-- The list of authorised names, as the server reads it, and whom `verifyCert` then lets in.
use cybersec_proj.Base.{
  ℕ, ◌≡◌, ◌∙◌, sym, ap, true, Bytes, List, [], ◌∷◌, ◌++◌, codes, ok, some, bind-eq-ok, Bool-cases,
  inl, inr, ◌==◌, or_throw, ok-inj, check,
}
use cybersec_proj.Exception.{ex_certificate, ex_bind, ex_listen}
use cybersec_proj.Certificate.{Pem, read_pem, from_user_name}
use cybersec_proj.CertManager
use cybersec_proj.CertManager.{CertManager, Trust, verify_peer, cert_path}
use cybersec_proj.CertManager.Laws.{Named, here, there, verify_cert_iff}
use cybersec_proj.Certificate.{get_x509}
use cybersec_proj.Listener
use cybersec_proj.Listener.{Inet, Server, Daemon}

blank_line-Named :
    (subject segment front back before after : Bytes)
    → subject ≡ before ++ (codes "CN=" ++ after)
    → Named subject (Listener.lines_loop segment (front ++ (b'\n' ∷ b'\n' ∷ back)))
unfolding Listener.lines_loop
blank_line-Named subject segment [] back before after e = there (here before after e)
blank_line-Named subject segment (c ∷ front) back before after e = elim (Bool-cases (c == b'\n')) [
  | inl h ↦ rw h (there (blank_line-Named subject [] front back before after e))
  | inr h ↦ rw h (blank_line-Named subject (segment ++ (c ∷ [])) front back before after e)
]

init_list :
    {S K P R T : Type 0} (trust : Trust K R T) (certs : Pem K) (crls : Pem R) (keys : Pem P)
    (username : Bytes) (list : List Bytes) (s s' : S) (cm : CertManager K P)
    → CertManager.init trust certs crls keys username list s ≡ ok cm s'
    → cm.auth_peers_list ≡ list
unfolding CertManager.init
init_list trust certs crls keys username list s s' cm h =
    let (ca, s1, _, h1) =
      bind-eq-ok (read_pem certs (cert_path ++ codes "TrustedCA_cert.pem") s) _ h in
    let (crl, s2, _, h2) =
      bind-eq-ok (read_pem crls (cert_path ++ codes "TrustedCA_crl.pem") s1) _ h1 in
    let (empty, s3, _, h3) = bind-eq-ok (or_throw (trust.new_store) ex_certificate s2) _ h2 in
    let (with_ca, s4, _, h4) =
      bind-eq-ok (or_throw (trust.add_cert empty ca) ex_certificate s3) _ h3 in
    let (with_crl, s5, _, h5) =
      bind-eq-ok (or_throw (trust.add_crl with_ca crl) ex_certificate s4) _ h4 in
    let (own, s6, _, h6) =
      bind-eq-ok (read_pem certs (cert_path ++ (username ++ codes "_cert.pem")) s5) _ h5 in
    let (key, s7, _, h7) = bind-eq-ok (from_user_name keys username s6) _ h6 in
    let made : CertManager _ _ = record {
      cert = some own;
      privkey = key;
      store = trust.x509 (trust.crl_check with_crl);
      auth_peers_list = list;
    } in
    sym (
      ap (λ (m : CertManager _ _). m.auth_peers_list)
        (ok-inj {a = made} {b = cm} {s = s7} {t = s'} h7).0)

module _ {N S K P R T : Type 0} (inet : Inet N S) (trust : Trust K R T) (certs : Pem K)
    (crls : Pem R) (keys : Pem P) where
  server_list :
      (port : ℕ) (d d' : Daemon N S) (server : Server K P)
      → Listener.init inet trust certs crls keys port d ≡ ok server d'
      → server.cm.auth_peers_list ≡ Listener.lines inet.names
  unfolding Listener.init
  server_list port d d' server h =
      let (_, d1, _, h1) = bind-eq-ok (check (inet.bind port) ex_bind d) _ h in
      let (_, d2, _, h2) = bind-eq-ok (check (inet.listen) ex_listen d1) _ h1 in
      let (cm, d3, e, h3) =
        bind-eq-ok
          (CertManager.init trust certs crls keys (codes "server") (Listener.lines inet.names) d2) _
          h2 in
      let made : Server K P = record { cm = cm; auth_client_list = Listener.lines inet.names } in
      sym (
        ap (λ (s : Server K P). s.cm.auth_peers_list)
          (ok-inj {a = made} {b = server} {s = d3} {t = d'} h3).0)
      ∙ init_list trust certs crls keys (codes "server") (Listener.lines inet.names) d2 d3 cm e

  -- Where the file of authorised names has two line ends in a row, the server that is made from it lets
  -- in every certificate that OpenSSL finds valid and whose subject has "CN=", whatever name follows.
  pub blank_line_authorises :
      {Z : Type 0} (port : ℕ) (d d' : Daemon N S) (server : Server K P) (x509 : K)
      (front back before after : Bytes) (z : Z)
      → Listener.init inet trust certs crls keys port d ≡ ok server d'
      → inet.names ≡ front ++ (b'\n' ∷ b'\n' ∷ back)
      → server.cm.store.new_ctx ≡ true
      → server.cm.store.init_ctx x509 ≡ true
      → server.cm.store.verify_cert x509 ≡ true
      → server.cm.store.oneline x509 ≡ before ++ (codes "CN=" ++ after)
      → verify_peer server.cm (some x509) z ≡ ok tt z
  unfolding verify_peer get_x509 Listener.lines
  blank_line_authorises port d d' server x509 front back before after z made text a b v e =
      let named : Named (server.cm.store.oneline x509) (server.cm.auth_peers_list) =
        rw (server_list port d d' server made, text)
          (blank_line-Named (server.cm.store.oneline x509) [] front back before after e) in
      (verify_cert_iff (server.cm.store) (server.cm.auth_peers_list) x509 z).1 (a, b, v, named)
