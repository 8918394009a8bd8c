-- ===== src/Handshake/Server.antt =====
-- `Client::handshake` of src/server/client.cpp.
use cybersec_proj.Base.{Bytes, ◌++◌, M, ◌>>=◌, ◌>>◌, return}
use cybersec_proj.Protocol.{aes128_key_len, hmac_key_len}
use cybersec_proj.Key
use cybersec_proj.Nonce
use cybersec_proj.Nonce.{Nonce}
use cybersec_proj.Certificate.{Certificate, RsaKey, cert_from_string, cert_str, from_certificate}
use cybersec_proj.CertManager.{CertManager, verify_peer}
use cybersec_proj.RsaSeal
use cybersec_proj.RsaSeal.{RsaSeal}
use cybersec_proj.RsaCrypto
use cybersec_proj.Handshake.{Party, Keys, Libs, on_rng, recv_buffer, send_buffer}

-- What M2 makes: the keys, the server's nonce, and the texts that go out before that nonce.
pub record Offer : Type 0 where
  pub keys : Keys
  pub nonce_server : Nonce
  pub session_seal : Bytes
  pub auth_seal : Bytes
  pub signature : Bytes

module _ {S G K P : Type 0} (libs : Libs S G K P) (cm : CertManager K P) where
  open libs use {os, random, codec, rsa}

  -- M1: the client's certificate is received and verified, and its nonce is received.
  unfoldable pub m1 : M (Party S G) (Certificate K × Nonce)
  m1 = do
    buffer ← recv_buffer os
    client_certificate ← cert_from_string codec buffer
    verify_peer cm client_certificate
    text ← recv_buffer os
    nonce_client ← Nonce.of_text text
    return (client_certificate, nonce_client)

  -- "generate keys and initialization vector", and the server's nonce.
  unfoldable pub generate_keys : M (Party S G) (Keys × Nonce)
  generate_keys = do
    session_key ← on_rng (Key.generate random aes128_key_len)
    auth_key ← on_rng (Key.generate random hmac_key_len)
    iv ← on_rng (Key.generate random aes128_key_len)
    nonce_server ← on_rng (Nonce.generate random)
    return (record { session_key = session_key; auth_key = auth_key; iv = iv }, nonce_server)

  -- "encrypt keys" and "sign message".
  unfoldable pub seal_keys : RsaKey P → Nonce → Keys → Nonce → M (Party S G) Offer
  seal_keys client_public_key nonce_client keys nonce_server = do
    session ← on_rng (RsaCrypto.encrypt rsa keys.session_key client_public_key)
    auth ← on_rng (RsaCrypto.encrypt rsa keys.auth_key client_public_key)
    session_seal ← RsaSeal.str session
    auth_seal ← RsaSeal.str auth
    signature ←
        RsaCrypto.sign rsa cm.privkey
          (session_seal ++ (auth_seal ++ (keys.iv ++ Nonce.str nonce_client)))
    return (record {
      keys = keys;
      nonce_server = nonce_server;
      session_seal = session_seal;
      auth_seal = auth_seal;
      signature = signature;
    })

  -- "send everything".
  unfoldable pub send_offer : Offer → M (Party S G) (Unit {0})
  send_offer offer = do
    certificate ← cert_str codec cm.cert
    send_buffer os certificate
    send_buffer os offer.session_seal
    send_buffer os offer.auth_seal
    send_buffer os offer.keys.iv
    send_buffer os offer.signature
    send_buffer os (Nonce.str offer.nonce_server)

  -- M2, with the client's key, which M3 uses again.
  unfoldable pub m2 : Certificate K → Nonce → M (Party S G) (RsaKey P × Offer)
  m2 client_certificate nonce_client = do
    (keys, nonce_server) ← generate_keys
    client_public_key ← from_certificate codec client_certificate
    offer ← seal_keys client_public_key nonce_client keys nonce_server
    send_offer offer
    return (client_public_key, offer)

  -- M3: the client's signature of the server's nonce.
  unfoldable pub m3 : RsaKey P → Offer → M (Party S G) (Unit {0})
  m3 client_public_key offer = do
    signature ← recv_buffer os
    RsaCrypto.verify rsa (Nonce.str offer.nonce_server) signature client_public_key

  unfoldable pub handshake : M (Party S G) Keys
  handshake = do
    (client_certificate, nonce_client) ← m1
    (client_public_key, offer) ← m2 client_certificate nonce_client
    m3 client_public_key offer
    return offer.keys
