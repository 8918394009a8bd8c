-- ===== src/Handshake/ClientRun.antt =====
-- An honest run of the client's `handshake`.
use cybersec_proj.Base.{◌≡◌, ◌∙◌, refl, ap, Bytes, ◌++◌, append_assoc, some, arith, ok, bind}
use cybersec_proj.Connection.Stream.{Stream}
use cybersec_proj.Connection.Strings.{text_frame}
use cybersec_proj.Random.{IsSeeded}
use cybersec_proj.Nonce
use cybersec_proj.Nonce.{Nonce}
use cybersec_proj.CertManager.{CertManager}
use cybersec_proj.RsaSeal.RoundTrip.{seal_frame, str_lem}
use cybersec_proj.Handshake.{Party, Libs, party}
use cybersec_proj.Handshake.Client
use cybersec_proj.Handshake.Client.{Answer}
use cybersec_proj.Handshake.Setup.{IsSoundRsa, Identity}
use cybersec_proj.Handshake.Buffers.{
  send_buffer_lem, recv_buffer_lem, cert_str_lem, cert_from_string_lem, verify_peer_lem,
  from_certificate_lem, sign_lem, verify_lem, decrypt_lem, of_text_lem,
}
use cybersec_proj.Handshake.Script.{Script, from_frame, to_server, to_client}

module _ {S G K P : Type 0} (libs : Libs S G K P) (net : Stream libs.os) {Pair : P → P → Type 0}
    {Seeded : G → Type 0} (works : IsSeeded libs.random Seeded)
    (sound : IsSoundRsa libs.rsa Pair Seeded) {client_cm server_cm : CertManager K P}
    (client : Identity libs Pair client_cm server_cm)
    (server : Identity libs Pair server_cm client_cm) {gc gs : G}
    (sc : Script libs client server gc gs) where
  open net use {inbox, outbox}

  abbrev nonce_c : Nonce
  nonce_c = record { nonce = sc.nonce_client }

  abbrev nonce_s : Nonce
  nonce_s = record { nonce = sc.nonce_server }

  abbrev answer : Answer K
  answer = record {
    certificate = some server.x509;
    session_seal = sc.session.seal;
    auth_seal = sc.auth.seal;
    iv = sc.keys.iv;
    signature = sc.offer_signed.sig;
    nonce_server = nonce_s;
  }

  client_m1 :
      (s : S)
      → (s' : S) × (Client.m1 libs client_cm (party s gc) ≡ ok nonce_c (party s' sc.gc'))
        × (inbox s' ≡ inbox s)
        × (outbox s' ≡ outbox s ++ (text_frame client.text ++ text_frame sc.nonce_client))
  unfolding Client.m1 Nonce.str
  client_m1 s =
      let (s1, r1, i1, o1) =
        send_buffer_lem libs.os net (party s gc) client.text client.some_text client.fits in
      let (s2, r2, i2, o2) =
        send_buffer_lem libs.os net (party s1 sc.gc') sc.nonce_client
          (omega (arith, sc.nonce_client_size)) (omega (arith, sc.nonce_client_size)) in
      (
        s2,
        rw (cert_str_lem libs client (party s gc), bind, r1, sc.nonce_client_drawn, bind, r2) refl,
        i2 ∙ i1,
        o2
            ∙ ap (λ (bs : Bytes). bs ++ text_frame sc.nonce_client) o1
            ∙ append_assoc (outbox s) (text_frame client.text) (text_frame sc.nonce_client),
      )

  client_certificate :
      (s : S) (g : G) (rest : Bytes)
      → inbox s ≡ text_frame server.text ++ rest
      → (s' : S) × (Client.recv_certificate libs client_cm (party s g)
          ≡ ok (some server.x509) (party s' g))
        × (inbox s' ≡ rest)
        × (outbox s' ≡ outbox s)
  unfolding Client.recv_certificate
  client_certificate s g rest e =
      let (s1, r1, i1, o1) =
        recv_buffer_lem libs.os net (party s g) server.text rest server.some_text server.fits e in
      (
        s1,
        rw
            (
              r1,
              bind,
              cert_from_string_lem libs server (party s1 g),
              bind,
              verify_peer_lem libs server (party s1 g),
            )
            refl,
        i1,
        o1,
      )

  client_seals :
      (s : S) (g : G) (rest : Bytes)
      → inbox s
        ≡ text_frame (seal_frame sc.session.seal) ++ (text_frame (seal_frame sc.auth.seal) ++ rest)
      → (s' : S) × (Client.recv_seals libs client_cm (party s g)
          ≡ ok (sc.session.seal, sc.auth.seal) (party s' g))
        × (inbox s' ≡ rest)
        × (outbox s' ≡ outbox s)
  unfolding Client.recv_seals
  client_seals s g rest e =
      let (s1, r1, i1, o1) =
        recv_buffer_lem libs.os net (party s g) (seal_frame sc.session.seal) _ sc.session.some_text
          sc.session.fits e in
      let (s2, r2, i2, o2) =
        recv_buffer_lem libs.os net (party s1 g) (seal_frame sc.auth.seal) rest sc.auth.some_text
          sc.auth.fits i1 in
      (
        s2,
        rw
            (
              r1,
              bind,
              from_frame sc.session.seal (party s1 g) sc.session.whole,
              bind,
              r2,
              bind,
              from_frame sc.auth.seal (party s2 g) sc.auth.whole,
            )
            refl,
        i2,
        o2 ∙ o1,
      )

  client_rest :
      (s : S) (g : G) (rest : Bytes)
      → inbox s
        ≡ text_frame sc.keys.iv
          ++ (text_frame sc.offer_signed.sig ++ (text_frame sc.nonce_server ++ rest))
      → (s' : S) × (Client.recv_rest libs client_cm
            (some server.x509)
            (sc.session.seal, sc.auth.seal)
            (party s g)
          ≡ ok answer (party s' g))
        × (inbox s' ≡ rest)
        × (outbox s' ≡ outbox s)
  unfolding Client.recv_rest
  client_rest s g rest e =
      let (s1, r1, i1, o1) =
        recv_buffer_lem libs.os net (party s g) sc.keys.iv _ (omega (arith, sc.iv_size))
          (omega (arith, sc.iv_size)) e in
      let (s2, r2, i2, o2) =
        recv_buffer_lem libs.os net (party s1 g) sc.offer_signed.sig _ sc.offer_signed.some_text
          sc.offer_signed.fits i1 in
      let (s3, r3, i3, o3) =
        recv_buffer_lem libs.os net (party s2 g) sc.nonce_server rest
          (omega (arith, sc.nonce_server_size)) (omega (arith, sc.nonce_server_size)) i2 in
      (
        s3,
        rw
            (
              r1,
              bind,
              r2,
              bind,
              r3,
              bind,
              of_text_lem sc.nonce_server (party s3 g) sc.nonce_server_size,
            )
            refl,
        i3,
        o3 ∙ o2 ∙ o1,
      )

  client_opens : (p : Party S G) → Client.open_answer libs client_cm nonce_c answer p ≡ ok sc.keys p
  unfolding Client.open_answer Nonce.str
  client_opens p =
      rw
        (
          str_lem sc.session.seal p sc.session.whole,
          bind,
          str_lem sc.auth.seal p sc.auth.whole,
          bind,
          from_certificate_lem libs server p,
          bind,
          verify_lem libs server _ sc.offer_signed.sig p sound.md_ctx sc.offer_signed.good,
          bind,
          decrypt_lem libs client sc.session.seal sc.session.secret sc.keys.session_key p
              sound.cipher_ctx sc.session.unwrapped sc.session.whole.iv_size sc.session.opened,
          bind,
          decrypt_lem libs client sc.auth.seal sc.auth.secret sc.keys.auth_key p sound.cipher_ctx
              sc.auth.unwrapped sc.auth.whole.iv_size sc.auth.opened,
        )
        refl

  client_m3 :
      (s : S) (g : G)
      → (s' : S) × (Client.m3 libs client_cm nonce_s (party s g) ≡ ok tt (party s' g))
        × (inbox s' ≡ inbox s)
        × (outbox s' ≡ outbox s ++ text_frame sc.nonce_signed.sig)
  unfolding Client.m3 Nonce.str
  client_m3 s g =
      let (s1, r1, i1, o1) =
        send_buffer_lem libs.os net (party s g) sc.nonce_signed.sig sc.nonce_signed.some_text
          sc.nonce_signed.fits in
      (
        s1,
        rw
            (
              sign_lem libs client sc.nonce_server sc.nonce_signed.sig (party s g) sound.md_ctx
                  sc.nonce_signed.made,
              bind,
            )
            r1,
        i1,
        o1,
      )

  pub client_follows :
      (s : S) (rest : Bytes)
      → inbox s ≡ to_client libs sc ++ rest
      → (s' : S) × (Client.handshake libs client_cm (party s gc) ≡ ok sc.keys (party s' sc.gc'))
        × (inbox s' ≡ rest)
        × (outbox s' ≡ outbox s ++ to_server libs sc)
  unfolding Client.handshake Client.recv_answer
  client_follows s rest e =
      let (s1, r1, i1, o1) = client_m1 s in
      let whole : inbox s1
          ≡ text_frame server.text
            ++ ((text_frame (seal_frame sc.session.seal)
                  ++ (text_frame (seal_frame sc.auth.seal)
                      ++ (text_frame sc.keys.iv
                          ++ (text_frame sc.offer_signed.sig ++ text_frame sc.nonce_server))))
                ++ rest) =
        i1 ∙ e ∙ append_assoc (text_frame server.text) _ rest in
      let (s2, r2, i2, o2) = client_certificate s1 sc.gc' _ whole in
      let (s3, r3, i3, o3) =
        client_seals s2 sc.gc'
          (text_frame sc.keys.iv
            ++ (text_frame sc.offer_signed.sig ++ (text_frame sc.nonce_server ++ rest)))
          (i2 ∙ simp append_assoc) in
      let (s4, r4, i4, o4) = client_rest s3 sc.gc' rest i3 in
      let (s5, r5, i5, o5) = client_m3 s4 sc.gc' in
      (
        s5,
        rw (r1, bind, r2, bind, r3, bind, r4, bind, client_opens (party s4 sc.gc'), bind, r5) refl,
        i5 ∙ i4,
        o5
            ∙ ap (λ (bs : Bytes). bs ++ text_frame sc.nonce_signed.sig) (o4 ∙ o3 ∙ o2 ∙ o1)
            ∙ simp append_assoc,
      )
