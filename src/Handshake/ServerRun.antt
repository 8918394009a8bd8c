-- ===== src/Handshake/ServerRun.antt =====
-- An honest run of the server's `handshake`.
use cybersec_proj.Base.{◌≡◌, ◌∙◌, refl, ap, Bytes, ◌++◌, append_assoc, some, arith, ok, bind}
use cybersec_proj.Connection.Stream.{Stream}
use cybersec_proj.Connection.Strings.{text_frame}
use cybersec_proj.Random.{IsSeeded}
use cybersec_proj.Nonce
use cybersec_proj.Nonce.{Nonce}
use cybersec_proj.CertManager.{CertManager}
use cybersec_proj.RsaSeal.RoundTrip.{seal_frame, str_lem}
use cybersec_proj.Handshake.{Libs, party}
use cybersec_proj.Handshake.Server
use cybersec_proj.Handshake.Server.{Offer}
use cybersec_proj.Handshake.Setup.{IsSoundRsa, Identity}
use cybersec_proj.Handshake.Buffers.{
  send_buffer_lem, recv_buffer_lem, cert_str_lem, cert_from_string_lem, verify_peer_lem,
  from_certificate_lem, sign_lem, verify_lem, encrypt_lem, of_text_lem,
}
use cybersec_proj.Handshake.Script.{Script, to_server, to_client}

module _ {S G K P : Type 0} (libs : Libs S G K P) (net : Stream libs.os) {Pair : P → P → Type 0}
    {Seeded : G → Type 0} (works : IsSeeded libs.random Seeded)
    (sound : IsSoundRsa libs.rsa Pair Seeded) {client_cm server_cm : CertManager K P}
    (client : Identity libs Pair client_cm server_cm)
    (server : Identity libs Pair server_cm client_cm) {gc gs : G}
    (sc : Script libs client server gc gs) where
  open net use {inbox, outbox}

  abbrev nonce_c : Nonce
  nonce_c = record { nonce = sc.nonce_client }

  abbrev nonce_s : Nonce
  nonce_s = record { nonce = sc.nonce_server }

  abbrev offer : Offer
  offer = record {
    keys = sc.keys;
    nonce_server = nonce_s;
    session_seal = seal_frame sc.session.seal;
    auth_seal = seal_frame sc.auth.seal;
    signature = sc.offer_signed.sig;
  }

  server_m1 :
      (s : S) (g : G) (rest : Bytes)
      → inbox s ≡ text_frame client.text ++ (text_frame sc.nonce_client ++ rest)
      → (s' : S) × (Server.m1 libs server_cm (party s g)
          ≡ ok (some client.x509, nonce_c) (party s' g))
        × (inbox s' ≡ rest)
        × (outbox s' ≡ outbox s)
  unfolding Server.m1
  server_m1 s g rest e =
      let (s1, r1, i1, o1) =
        recv_buffer_lem libs.os net (party s g) client.text _ client.some_text client.fits e in
      let (s2, r2, i2, o2) =
        recv_buffer_lem libs.os net (party s1 g) sc.nonce_client rest
          (omega (arith, sc.nonce_client_size)) (omega (arith, sc.nonce_client_size)) i1 in
      (
        s2,
        rw
            (
              r1,
              bind,
              cert_from_string_lem libs client (party s1 g),
              bind,
              verify_peer_lem libs client (party s1 g),
              bind,
              r2,
              bind,
              of_text_lem sc.nonce_client (party s2 g) sc.nonce_client_size,
            )
            refl,
        i2,
        o2 ∙ o1,
      )

  server_generates :
      (s : S)
      → Server.generate_keys libs server_cm (party s gs) ≡ ok (sc.keys, nonce_s) (party s sc.g4)
  unfolding Server.generate_keys
  server_generates s =
      rw
        (
          sc.session_key_drawn, bind, sc.auth_key_drawn, bind, sc.iv_drawn, bind,
          sc.nonce_server_drawn,
        )
        refl

  server_seals :
      (s : S)
      → Server.seal_keys libs server_cm (some client.public) nonce_c sc.keys nonce_s (party s sc.g4)
        ≡ ok offer (party s sc.g6)
  unfolding Server.seal_keys Nonce.str
  server_seals s =
      rw
        (
          encrypt_lem libs client.public sc.keys.session_key sc.session.seal.ek
              sc.session.seal.payload sc.session.seal.iv sc.g4 sc.g5 sound.cipher_ctx
              sc.session.made,
          bind,
          encrypt_lem libs client.public sc.keys.auth_key sc.auth.seal.ek sc.auth.seal.payload
              sc.auth.seal.iv sc.g5 sc.g6 sound.cipher_ctx sc.auth.made,
          bind,
          str_lem sc.session.seal (party s sc.g6) sc.session.whole,
          bind,
          str_lem sc.auth.seal (party s sc.g6) sc.auth.whole,
          bind,
          sign_lem libs server _ sc.offer_signed.sig (party s sc.g6) sound.md_ctx
              sc.offer_signed.made,
        )
        refl

  server_sends :
      (s : S) (g : G)
      → (s' : S) × (Server.send_offer libs server_cm offer (party s g) ≡ ok tt (party s' g))
        × (inbox s' ≡ inbox s)
        × (outbox s' ≡ outbox s ++ to_client libs sc)
  unfolding Server.send_offer Nonce.str
  server_sends s g =
      let (s1, r1, i1, o1) =
        send_buffer_lem libs.os net (party s g) server.text server.some_text server.fits in
      let (s2, r2, i2, o2) =
        send_buffer_lem libs.os net (party s1 g) (seal_frame sc.session.seal) sc.session.some_text
          sc.session.fits in
      let (s3, r3, i3, o3) =
        send_buffer_lem libs.os net (party s2 g) (seal_frame sc.auth.seal) sc.auth.some_text
          sc.auth.fits in
      let (s4, r4, i4, o4) =
        send_buffer_lem libs.os net (party s3 g) sc.keys.iv (omega (arith, sc.iv_size))
          (omega (arith, sc.iv_size)) in
      let (s5, r5, i5, o5) =
        send_buffer_lem libs.os net (party s4 g) sc.offer_signed.sig sc.offer_signed.some_text
          sc.offer_signed.fits in
      let (s6, r6, i6, o6) =
        send_buffer_lem libs.os net (party s5 g) sc.nonce_server
          (omega (arith, sc.nonce_server_size)) (omega (arith, sc.nonce_server_size)) in
      (
        s6,
        rw
            (
              cert_str_lem libs server (party s g),
              bind,
              r1,
              bind,
              r2,
              bind,
              r3,
              bind,
              r4,
              bind,
              r5,
              bind,
              r6,
            )
            refl,
        i6 ∙ i5 ∙ i4 ∙ i3 ∙ i2 ∙ i1,
        rw (o6, o5, o4, o3, o2, o1) (simp append_assoc),
      )

  server_m2 :
      (s : S)
      → (s' : S) × (Server.m2 libs server_cm (some client.x509) nonce_c (party s gs)
          ≡ ok (some client.public, offer) (party s' sc.g6))
        × (inbox s' ≡ inbox s)
        × (outbox s' ≡ outbox s ++ to_client libs sc)
  unfolding Server.m2
  server_m2 s =
      let (s', r, i, o) = server_sends s sc.g6 in
      (
        s',
        rw
            (
              server_generates s,
              bind,
              from_certificate_lem libs client (party s sc.g4),
              bind,
              server_seals s,
              bind,
              r,
            )
            refl,
        i,
        o,
      )

  server_m3 :
      (s : S) (g : G) (rest : Bytes)
      → inbox s ≡ text_frame sc.nonce_signed.sig ++ rest
      → (s' : S) × (Server.m3 libs server_cm (some client.public) offer (party s g)
          ≡ ok tt (party s' g))
        × (inbox s' ≡ rest)
        × (outbox s' ≡ outbox s)
  unfolding Server.m3 Nonce.str
  server_m3 s g rest e =
      let (s1, r1, i1, o1) =
        recv_buffer_lem libs.os net (party s g) sc.nonce_signed.sig rest sc.nonce_signed.some_text
          sc.nonce_signed.fits e in
      (
        s1,
        rw (r1, bind)
            (verify_lem libs client sc.nonce_server sc.nonce_signed.sig (party s1 g) sound.md_ctx
              sc.nonce_signed.good),
        i1,
        o1,
      )

  pub server_follows :
      (s : S) (rest : Bytes)
      → inbox s ≡ to_server libs sc ++ rest
      → (s' : S) × (Server.handshake libs server_cm (party s gs) ≡ ok sc.keys (party s' sc.g6))
        × (inbox s' ≡ rest)
        × (outbox s' ≡ outbox s ++ to_client libs sc)
  unfolding Server.handshake
  server_follows s rest e =
      let (s1, r1, i1, o1) =
        server_m1 s gs (text_frame sc.nonce_signed.sig ++ rest) (e ∙ simp append_assoc) in
      let (s2, r2, i2, o2) = server_m2 s1 in
      let (s3, r3, i3, o3) = server_m3 s2 sc.g6 rest (i2 ∙ i1) in
      (
        s3,
        rw (r1, bind, r2, bind, r3) refl,
        i3,
        o3 ∙ o2 ∙ ap (λ (bs : Bytes). bs ++ to_client libs sc) o1,
      )
