-- ===== src/Handshake/Client.antt =====
-- `handshake` of src/client/main.cpp.
use cybersec_proj.Base.{Bytes, ◌++◌, M, ◌>>=◌, ◌>>◌, return}
use cybersec_proj.Nonce
use cybersec_proj.Nonce.{Nonce}
use cybersec_proj.Certificate.{Certificate, cert_from_string, cert_str, from_certificate}
use cybersec_proj.CertManager.{CertManager, verify_peer}
use cybersec_proj.RsaSeal
use cybersec_proj.RsaSeal.{RsaSeal}
use cybersec_proj.RsaCrypto
use cybersec_proj.Handshake.{Party, Keys, Libs, on_rng, recv_buffer, send_buffer}

-- What M2 receives: the server's certificate, the two envelopes, the IV, the signature, the nonce.
pub record Answer (K : Type 0) : Type 0 where
  pub certificate : Certificate K
  pub session_seal : RsaSeal
  pub auth_seal : RsaSeal
  pub iv : Bytes
  pub signature : Bytes
  pub nonce_server : Nonce

module _ {S G K P : Type 0} (libs : Libs S G K P) (cm : CertManager K P) where
  open libs use {os, random, codec, rsa}

  -- M1: the client's certificate and a new nonce are sent.
  unfoldable pub m1 : M (Party S G) Nonce
  m1 = do
    certificate ← cert_str codec cm.cert
    send_buffer os certificate
    nonce_client ← on_rng (Nonce.generate random)
    send_buffer os (Nonce.str nonce_client)
    return nonce_client

  -- "receive and verify server's certificate".
  unfoldable pub recv_certificate : M (Party S G) (Certificate K)
  recv_certificate = do
    buffer ← recv_buffer os
    certificate ← cert_from_string codec buffer
    verify_peer cm certificate
    return certificate

  -- "receive encrypted keys".
  unfoldable pub recv_seals : M (Party S G) (RsaSeal × RsaSeal)
  recv_seals = do
    session_text ← recv_buffer os
    session_seal ← RsaSeal.from_string session_text
    auth_text ← recv_buffer os
    auth_seal ← RsaSeal.from_string auth_text
    return (session_seal, auth_seal)

  -- "IVs and their signature, and server's nonce".
  unfoldable pub recv_rest : Certificate K → RsaSeal × RsaSeal → M (Party S G) (Answer K)
  recv_rest certificate seals = do
    iv ← recv_buffer os
    signature ← recv_buffer os
    nonce_text ← recv_buffer os
    nonce_server ← Nonce.of_text nonce_text
    return (record {
      certificate = certificate;
      session_seal = seals.0;
      auth_seal = seals.1;
      iv = iv;
      signature = signature;
      nonce_server = nonce_server;
    })

  unfoldable pub recv_answer : M (Party S G) (Answer K)
  recv_answer = do certificate ← recv_certificate; seals ← recv_seals; recv_rest certificate seals

  -- "verify server's signature" and "decrypt symmetric session+auth keys".
  unfoldable pub open_answer : Nonce → Answer K → M (Party S G) Keys
  open_answer nonce_client answer = do
    session_text ← RsaSeal.str answer.session_seal
    auth_text ← RsaSeal.str answer.auth_seal
    server_public_key ← from_certificate codec answer.certificate
    RsaCrypto.verify rsa (session_text ++ (auth_text ++ (answer.iv ++ Nonce.str nonce_client)))
        answer.signature server_public_key
    session_key ← RsaCrypto.decrypt rsa cm.privkey answer.session_seal
    auth_key ← RsaCrypto.decrypt rsa cm.privkey answer.auth_seal
    return (record { session_key = session_key; auth_key = auth_key; iv = answer.iv })

  -- M3: the server's nonce is signed and sent back.
  unfoldable pub m3 : Nonce → M (Party S G) (Unit {0})
  m3 nonce_server = do
    signature ← RsaCrypto.sign rsa cm.privkey (Nonce.str nonce_server)
    send_buffer os signature

  unfoldable pub handshake : M (Party S G) Keys
  handshake = do
    nonce_client ← m1
    answer ← recv_answer
    keys ← open_answer nonce_client answer
    m3 answer.nonce_server
    return keys
