-- ===== src/Handshake/AuthenticClient.antt =====
-- What the server knows when its `handshake` returns.
use cybersec_proj.Base.{
  ◌≡◌, ◌∙◌, sym, ap, Bytes, ◌++◌, some, ok, bind-eq-ok, ok-inj, some-inj, Outcome,
}
use cybersec_proj.Nonce
use cybersec_proj.Nonce.{Nonce}
use cybersec_proj.Certificate.{Certificate, RsaKey, from_certificate, cert_from_string}
use cybersec_proj.CertManager.{CertManager, verify_peer}
use cybersec_proj.RsaSeal
use cybersec_proj.RsaSeal.{RsaSeal}
use cybersec_proj.RsaCrypto
use cybersec_proj.RsaCrypto.{truth}
use cybersec_proj.RsaCrypto.Laws.{
  verify_accepted, from_certificate_known, IsGenuine, Endorsed, truth-Endorsed,
}
use cybersec_proj.Handshake.{Party, Keys, Libs, on_rng, recv_buffer}
use cybersec_proj.Handshake.Authentic.{IsTrusted, verify_peer-IsTrusted}
use cybersec_proj.Handshake.Server
use cybersec_proj.Handshake.Server.{Offer}

module _ {S G K P : Type 0} (libs : Libs S G K P) (cm : CertManager K P) where
  open libs use {os, random, codec, rsa}

  -- The server's view of a handshake where the client presented `cert`: it is a trusted certificate,
  -- and its owner signed the nonce `nonce`, or EVP_VerifyFinal failed on it with a negative answer.
  pub record FromClient (SignedBy : P → Bytes → Type 0) (cert : Certificate K) (nonce : Nonce)
      : Type 0 where
    pub x509 : K
    pub presented : cert ≡ some x509
    pub trusted : IsTrusted cm x509
    pub client_key : P
    pub certified : codec.get_pubkey x509 ≡ some client_key
    pub signature : Bytes
    pub signed : Endorsed rsa SignedBy client_key (Nonce.str nonce) signature

  m1-IsTrusted :
      (p p' : Party S G) (c : Certificate K) (n : Nonce)
      → Server.m1 libs cm p ≡ ok (c, n) p'
      → (x509 : K) × (c ≡ some x509) × IsTrusted cm x509
  unfolding Server.m1
  m1-IsTrusted p p' c n h =
      let (b1, p1, e1, h1) = bind-eq-ok (recv_buffer os p) _ h in
      let (c', p2, e2, h2) = bind-eq-ok (cert_from_string codec b1 p1) _ h1 in
      let (u, p3, e3, h3) = bind-eq-ok (verify_peer cm c' p2) _ h2 in
      let (b4, p4, e4, h4) = bind-eq-ok (recv_buffer os p3) _ h3 in
      let (n', p5, e5, h5) = bind-eq-ok (Nonce.of_text b4 p4) _ h4 in
      let (x509, e, t) = verify_peer-IsTrusted cm c' p2 e3 in
      (
        x509,
        sym (
              ap (λ (r : Certificate K × Nonce). r.0)
                (ok-inj {a = (c', n')} {b = (c, n)} {s = p5} {t = p'} h5).0)
            ∙ e,
        t,
      )

  seal_keeps :
      (key : RsaKey P) (n : Nonce) (keys : Keys) (ns : Nonce) (p p' : Party S G) (offer : Offer)
      → Server.seal_keys libs cm key n keys ns p ≡ ok offer p'
      → (offer.keys ≡ keys) × (offer.nonce_server ≡ ns)
  unfolding Server.seal_keys
  seal_keeps key n keys ns p p' offer h =
      let (s1, p1, e1, h1) =
        bind-eq-ok (on_rng (RsaCrypto.encrypt rsa keys.session_key key) p) _ h in
      let (s2, p2, e2, h2) =
        bind-eq-ok (on_rng (RsaCrypto.encrypt rsa keys.auth_key key) p1) _ h1 in
      let (t1, p3, e3, h3) = bind-eq-ok (RsaSeal.str s1 p2) _ h2 in
      let (t2, p4, e4, h4) = bind-eq-ok (RsaSeal.str s2 p3) _ h3 in
      let (sig, p5, e5, h5) =
        bind-eq-ok (RsaCrypto.sign rsa cm.privkey (t1 ++ (t2 ++ (keys.iv ++ Nonce.str n))) p4) _
          h4 in
      let same =
        (ok-inj
          {a = record {
            keys = keys;
            nonce_server = ns;
            session_seal = t1;
            auth_seal = t2;
            signature = sig;
          }}
          {b = offer} {s = p5} {t = p'} h5).0 in
      (sym (ap (λ (o : Offer). o.keys) same), sym (ap (λ (o : Offer). o.nonce_server) same))

  m2_keys :
      (c : Certificate K) (n : Nonce) (p p' : Party S G) (key : RsaKey P) (offer : Offer)
      → Server.m2 libs cm c n p ≡ ok (key, offer) p'
      → (p1 : Party S G) × (p2 : Party S G) × (Server.generate_keys libs cm p
          ≡ ok (offer.keys, offer.nonce_server) p1)
        × (from_certificate codec c p1 ≡ ok key p2)
  unfolding Server.m2
  m2_keys c n p p' key offer h =
      let ((keys, ns), p1, e1, h1) = bind-eq-ok (Server.generate_keys libs cm p) _ h in
      let (key', p2, e2, h2) = bind-eq-ok (from_certificate codec c p1) _ h1 in
      let (offer', p3, e3, h3) = bind-eq-ok (Server.seal_keys libs cm key' n keys ns p2) _ h2 in
      let (u, p4, e4, h4) = bind-eq-ok (Server.send_offer libs cm offer' p3) _ h3 in
      let same = (ok-inj {a = (key', offer')} {b = (key, offer)} {s = p4} {t = p'} h4).0 in
      let (k, m) = seal_keeps key' n keys ns p2 p3 offer' e3 in
      let o : offer' ≡ offer = ap (λ (r : RsaKey P × Offer). r.1) same in
      (p1, p2, rw (← o, k, m) e1, rw (← ap (λ (r : RsaKey P × Offer). r.0) same) e2)

  -- Provided EVP_VerifyFinal gives a positive answer only for a text that the owner of the key signed:
  -- when the server's `handshake` returns keys, it accepted a client's certificate in `m1`, right after
  -- made these keys with a new nonce, sent them in `m2`, and ended with `m3`, where a signature of that
  -- nonce was accepted; the owner of that trusted certificate signed the nonce, unless EVP_VerifyFinal
  -- failed on it with a negative answer, which the code takes for acceptance (`FromClient`).
  pub server_authentic :
      {SignedBy : P → Bytes → Type 0} (g : IsGenuine rsa SignedBy) (p p' : Party S G) (keys : Keys)
      → Server.handshake libs cm p ≡ ok keys p'
      → (cert : Certificate K) × (n : Nonce) × (p1 : Party S G) × (q1 : Party S G) × (key : RsaKey
          P)
        × (offer : Offer) × (p2 : Party S G) × (Server.m1 libs cm p ≡ ok (cert, n) p1)
        × (Server.generate_keys libs cm p1 ≡ ok (keys, offer.nonce_server) q1)
        × (Server.m2 libs cm cert n p1 ≡ ok (key, offer) p2)
        × (offer.keys ≡ keys)
        × (Server.m3 libs cm key offer p2 ≡ ok tt p')
        × FromClient SignedBy cert offer.nonce_server
  unfolding Server.handshake Server.m3
  server_authentic g p p' keys h =
      let ((c, n), p1, e1, h1) = bind-eq-ok (Server.m1 libs cm p) _ h in
      let ((key, offer), p2, e2, h2) = bind-eq-ok (Server.m2 libs cm c n p1) _ h1 in
      let (u, p3, e3, h3) = bind-eq-ok (Server.m3 libs cm key offer p2) _ h2 in
      let (sig, p4, e4, h4) = bind-eq-ok (recv_buffer os p2) _ e3 in
      let (x509, known, t) = m1-IsTrusted p p1 c n e1 in
      let (q1, q2, made, f) = m2_keys c n p1 p2 key offer e2 in
      let (x, pk, ex, ek, eq, _) = from_certificate_known codec c f in
      let (pk', eq', v, _) = verify_accepted rsa (Nonce.str offer.nonce_server) sig key h4 in
      let same_x : x ≡ x509 = some-inj (sym ex ∙ known) in
      let same_pk : pk' ≡ pk = some-inj (sym eq' ∙ eq) in
      let (same, ended) = ok-inj {a = offer.keys} {b = keys} {s = p3} {t = p'} h3 in
      let finish : Party S G → Outcome (Party S G) (Unit {0}) = λ s. ok tt s in
      let made_by : Keys → Outcome (Party S G) (Keys × Nonce) =
        λ k. ok (k, offer.nonce_server) q1 in
      (
        c,
        n,
        p1,
        q1,
        key,
        offer,
        p2,
        e1,
        made ∙ ap made_by same,
        e2,
        same,
        e3 ∙ ap finish ended,
        record {
          x509 = x509;
          presented = known;
          trusted = t;
          client_key = pk;
          certified = rw (← same_x) ek;
          signature = sig;
          signed = truth-Endorsed g pk (Nonce.str offer.nonce_server) sig (rw (← same_pk) v);
        },
      )
