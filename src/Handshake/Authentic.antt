-- ===== src/Handshake/Authentic.antt =====
-- What either end knows when its `handshake` returns.
use cybersec_proj.Base.{
  ◌≡◌, ◌∙◌, refl, sym, ap, true, Bytes, ◌++◌, some, none, arith, ok, bind-eq-ok, ok-inj, some-inj,
}
use cybersec_proj.Nonce
use cybersec_proj.Nonce.{Nonce}
use cybersec_proj.Certificate.{Certificate, get_x509, from_certificate, cert_from_string}
use cybersec_proj.CertManager.{CertManager, verify_peer}
use cybersec_proj.CertManager.Laws.{Named, verify_cert_passed}
use cybersec_proj.RsaSeal
use cybersec_proj.RsaSeal.{RsaSeal}
use cybersec_proj.RsaCrypto
use cybersec_proj.RsaCrypto.{truth}
use cybersec_proj.RsaCrypto.Laws.{
  verify_accepted, decrypt_opened, from_certificate_known, IsGenuine, Endorsed, truth-Endorsed,
}
use cybersec_proj.Handshake.{Party, Keys, Libs, recv_buffer}
use cybersec_proj.Handshake.Client
use cybersec_proj.Handshake.Client.{Answer}

-- A certificate that the manager's store accepts, with a subject that names a peer of the list.
pub record IsTrusted {K P : Type 0} (cm : CertManager K P) (x509 : K) : Type 0 where
  pub valid : cm.store.verify_cert x509 ≡ true
  pub named : Named (cm.store.oneline x509) cm.auth_peers_list

pub verify_peer-IsTrusted :
    {S K P : Type 0} (cm : CertManager K P) (cert : Certificate K) (s : S) {s' : S}
    → verify_peer cm cert s ≡ ok tt s'
    → (x509 : K) × (cert ≡ some x509) × IsTrusted cm x509
unfolding verify_peer get_x509
verify_peer-IsTrusted cm none s h = ground arith
verify_peer-IsTrusted cm (some x509) s h =
    let (v, n) = verify_cert_passed cm.store cm.auth_peers_list x509 s h in
    (x509, refl, record { valid = v; named = n })

module _ {S G K P : Type 0} (libs : Libs S G K P) (cm : CertManager K P) where
  open libs use {os, random, codec, rsa}

  -- The client's view of a handshake that gave it `keys`. The server's certificate is trusted; its
  -- owner signed both envelopes, the IV and the nonce that the client made in this handshake, or
  -- EVP_VerifyFinal failed on them with a negative answer; and the two keys are what the client's
  -- private key opens those envelopes to.
  pub record FromServer (SignedBy : P → Bytes → Type 0) (nonce : Nonce) (keys : Keys) : Type 0 where
    pub x509 : K
    pub trusted : IsTrusted cm x509
    pub server_key : P
    pub certified : codec.get_pubkey x509 ≡ some server_key
    pub session_seal : RsaSeal
    pub auth_seal : RsaSeal
    pub session_text : Bytes
    pub auth_text : Bytes
    pub session_written : RsaSeal.str {S = Unit {0}} session_seal tt ≡ ok session_text tt
    pub auth_written : RsaSeal.str {S = Unit {0}} auth_seal tt ≡ ok auth_text tt
    pub signature : Bytes
    pub signed :
        Endorsed rsa SignedBy server_key
          (session_text ++ (auth_text ++ (keys.iv ++ Nonce.str nonce)))
          signature
    pub own_key : P
    pub own : cm.privkey ≡ some own_key
    pub session_secret : Bytes
    pub session_unwrapped : rsa.unwrap own_key session_seal.ek ≡ some session_secret
    pub session_opened :
        rsa.decrypt session_secret session_seal.iv session_seal.payload ≡ some keys.session_key
    pub auth_secret : Bytes
    pub auth_unwrapped : rsa.unwrap own_key auth_seal.ek ≡ some auth_secret
    pub auth_opened : rsa.decrypt auth_secret auth_seal.iv auth_seal.payload ≡ some keys.auth_key

  str_pure :
      {T : Type 0} (seal : RsaSeal) (s : T) {text : Bytes} {s' : T}
      → RsaSeal.str seal s ≡ ok text s'
      → RsaSeal.str {S = Unit {0}} seal tt ≡ ok text tt
  unfolding RsaSeal.str
  str_pure seal s h = ground arith

  certificate-IsTrusted :
      (p p' : Party S G) (c : Certificate K)
      → Client.recv_certificate libs cm p ≡ ok c p'
      → (x509 : K) × (c ≡ some x509) × IsTrusted cm x509
  unfolding Client.recv_certificate
  certificate-IsTrusted p p' c h =
      let (b1, p1, e1, h1) = bind-eq-ok (recv_buffer os p) _ h in
      let (c', p2, e2, h2) = bind-eq-ok (cert_from_string codec b1 p1) _ h1 in
      let (u, p3, e3, h3) = bind-eq-ok (verify_peer cm c' p2) _ h2 in
      let (x509, e, t) = verify_peer-IsTrusted cm c' p2 e3 in
      (x509, sym (ok-inj {a = c'} {b = c} {s = p3} {t = p'} h3).0 ∙ e, t)

  rest_keeps :
      (c : Certificate K) (seals : RsaSeal × RsaSeal) (p p' : Party S G) (answer : Answer K)
      → Client.recv_rest libs cm c seals p ≡ ok answer p'
      → answer.certificate ≡ c
  unfolding Client.recv_rest
  rest_keeps c seals p p' answer h =
      let (b1, p1, e1, h1) = bind-eq-ok (recv_buffer os p) _ h in
      let (b2, p2, e2, h2) = bind-eq-ok (recv_buffer os p1) _ h1 in
      let (b3, p3, e3, h3) = bind-eq-ok (recv_buffer os p2) _ h2 in
      let (n, p4, e4, h4) = bind-eq-ok (Nonce.of_text b3 p3) _ h3 in
      sym (
        ap (λ (a : Answer K). a.certificate)
          (ok-inj
            {a = record {
              certificate = c;
              session_seal = seals.0;
              auth_seal = seals.1;
              iv = b1;
              signature = b2;
              nonce_server = n;
            }}
            {b = answer} {s = p4} {t = p'} h4).0)

  answer-IsTrusted :
      (p p' : Party S G) (answer : Answer K)
      → Client.recv_answer libs cm p ≡ ok answer p'
      → (x509 : K) × (answer.certificate ≡ some x509) × IsTrusted cm x509
  unfolding Client.recv_answer
  answer-IsTrusted p p' answer h =
      let (c, p1, e1, h1) = bind-eq-ok (Client.recv_certificate libs cm p) _ h in
      let (seals, p2, e2, h2) = bind-eq-ok (Client.recv_seals libs cm p1) _ h1 in
      let (x509, e, t) = certificate-IsTrusted p p1 c e1 in
      (x509, rest_keeps c seals p2 p' answer h2 ∙ e, t)

  opened-FromServer :
      {SignedBy : P → Bytes → Type 0} (g : IsGenuine rsa SignedBy) (nonce : Nonce)
      (answer : Answer K) (x509 : K) (p p' : Party S G) (keys : Keys)
      → answer.certificate ≡ some x509
      → IsTrusted cm x509
      → Client.open_answer libs cm nonce answer p ≡ ok keys p'
      → FromServer SignedBy nonce keys
  unfolding Client.open_answer
  opened-FromServer g nonce answer x509 p p' keys known t h =
      let (t1, p1, e1, h1) = bind-eq-ok (RsaSeal.str answer.session_seal p) _ h in
      let (t2, p2, e2, h2) = bind-eq-ok (RsaSeal.str answer.auth_seal p1) _ h1 in
      let (key, p3, e3, h3) = bind-eq-ok (from_certificate codec answer.certificate p2) _ h2 in
      let (u, p4, e4, h4) =
        bind-eq-ok
          (RsaCrypto.verify rsa (t1 ++ (t2 ++ (answer.iv ++ Nonce.str nonce))) answer.signature key
            p3)
          _ h3 in
      let (k5, p5, e5, h5) =
        bind-eq-ok (RsaCrypto.decrypt rsa cm.privkey answer.session_seal p4) _ h4 in
      let (k6, p6, e6, h6) =
        bind-eq-ok (RsaCrypto.decrypt rsa cm.privkey answer.auth_seal p5) _ h5 in
      let (x, pk, ex, ek, eq, _) = from_certificate_known codec answer.certificate e3 in
      let (pk', eq', v, _) =
        verify_accepted rsa (t1 ++ (t2 ++ (answer.iv ++ Nonce.str nonce))) answer.signature key
          e4 in
      let (own, s1, o1, w1, d1, _) = decrypt_opened rsa cm.privkey answer.session_seal e5 in
      let (own', s2, o2, w2, d2, _) = decrypt_opened rsa cm.privkey answer.auth_seal e6 in
      let same : keys ≡ record { session_key = k5; auth_key = k6; iv = answer.iv } =
        sym (ok-inj h6).0 in
      let same_x : x ≡ x509 = some-inj (sym ex ∙ known) in
      let same_pk : pk' ≡ pk = some-inj (sym eq' ∙ eq) in
      let same_own : own' ≡ own = some-inj (sym o2 ∙ o1) in
      rw same (record {
        x509 = x509;
        trusted = t;
        server_key = pk;
        certified = rw (← same_x) ek;
        session_seal = answer.session_seal;
        auth_seal = answer.auth_seal;
        session_text = t1;
        auth_text = t2;
        session_written = str_pure answer.session_seal p e1;
        auth_written = str_pure answer.auth_seal p1 e2;
        signature = answer.signature;
        signed =
            truth-Endorsed g pk (t1 ++ (t2 ++ (answer.iv ++ Nonce.str nonce))) answer.signature
              (rw (← same_pk) v);
        own_key = own;
        own = o1;
        session_secret = s1;
        session_unwrapped = w1;
        session_opened = d1;
        auth_secret = s2;
        auth_unwrapped = rw (← same_own) w2;
        auth_opened = d2;
      })

  -- Provided EVP_VerifyFinal gives a positive answer only for a text that the owner of the key signed:
  -- when the client's `handshake` returns keys, there is a nonce that this handshake made and sent; the
  -- two keys are what the client's private key opens two envelopes to; and the owner of a trusted
  -- certificate signed those envelopes, the IV and that nonce, unless EVP_VerifyFinal failed on them
  -- with a negative answer, which the code takes for acceptance (`FromServer`).
  pub client_authentic :
      {SignedBy : P → Bytes → Type 0} (g : IsGenuine rsa SignedBy) (p p' : Party S G) (keys : Keys)
      → Client.handshake libs cm p ≡ ok keys p'
      → (nonce : Nonce) × (p1 : Party S G) × (Client.m1 libs cm p ≡ ok nonce p1)
        × FromServer SignedBy nonce keys
  unfolding Client.handshake
  client_authentic g p p' keys h =
      let (nonce, p1, e1, h1) = bind-eq-ok (Client.m1 libs cm p) _ h in
      let (answer, p2, e2, h2) = bind-eq-ok (Client.recv_answer libs cm p1) _ h1 in
      let (keys', p3, e3, h3) = bind-eq-ok (Client.open_answer libs cm nonce answer p2) _ h2 in
      let (u, p4, e4, h4) = bind-eq-ok (Client.m3 libs cm answer.nonce_server p3) _ h3 in
      let (x509, known, t) = answer-IsTrusted p1 p2 answer e2 in
      let same : keys' ≡ keys = (ok-inj h4).0 in
      (nonce, p1, e1, rw (← same) (opened-FromServer g nonce answer x509 p2 p3 keys' known t e3))
