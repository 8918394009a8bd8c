-- ===== src/Handshake/Buffers.antt =====
-- The texts of a handshake on a stream, and the operations of the libraries where they succeed.
use cybersec_proj.Base.{◌≤◌, ◌<◌, ◌≡◌, refl, true, Bytes, ◌++◌, some, arith, ok, length}
use cybersec_proj.Base.Int.{pos}
use cybersec_proj.Protocol.{buffer_size, aes128_key_len}
use cybersec_proj.Connection.{Socket}
use cybersec_proj.Connection.Stream.{Stream}
use cybersec_proj.Connection.Strings.{text_frame, send_string_lem, recv_string_lem}
use cybersec_proj.Certificate.{get_x509, get_pkey, cert_from_string, cert_str, from_certificate}
use cybersec_proj.CertManager.{CertManager, verify_peer}
use cybersec_proj.CertManager.Laws.{verify_cert_iff}
use cybersec_proj.RsaCrypto
use cybersec_proj.RsaCrypto.{Rsa}
use cybersec_proj.RsaSeal.{RsaSeal}
use cybersec_proj.Nonce
use cybersec_proj.Handshake.{Party, Libs, send_buffer, recv_buffer}
use cybersec_proj.Handshake.Setup.{Identity}

module _ {S G : Type 0} (os : Socket S) (net : Stream os) where
  open net use {inbox, outbox}

  pub send_buffer_lem :
      (p : Party S G) (text : Bytes)
      → 0 < length text
      → length text ≤ buffer_size
      → (s' : S) × (send_buffer os text p ≡ ok tt (record p { sock = s' }))
        × (inbox s' ≡ inbox p.sock)
        × (outbox s' ≡ outbox p.sock ++ text_frame text)
  unfolding send_buffer
  send_buffer_lem p text h k =
      let (s', r, i, o) = send_string_lem os net p.sock text h (omega arith) in
      (s', rw r refl, i, o)

  pub recv_buffer_lem :
      (p : Party S G) (text rest : Bytes)
      → 0 < length text
      → length text ≤ buffer_size
      → inbox p.sock ≡ text_frame text ++ rest
      → (s' : S) × (recv_buffer os p ≡ ok text (record p { sock = s' }))
        × (inbox s' ≡ rest)
        × (outbox s' ≡ outbox p.sock)
  unfolding recv_buffer
  recv_buffer_lem p text rest h k e =
      let (s', r, i, o) = recv_string_lem os net p.sock text rest h k e in (s', rw r refl, i, o)

module _ {S G K P T : Type 0} (libs : Libs S G K P) {Pair : P → P → Type 0}
    {own judge : CertManager K P} (who : Identity libs Pair own judge) where
  open libs use {codec, rsa}

  pub cert_str_lem : (s : T) → cert_str codec own.cert s ≡ ok who.text s
  unfolding cert_str get_x509
  cert_str_lem s = rw (who.holds_cert, who.written) refl

  pub cert_from_string_lem : (s : T) → cert_from_string codec who.text s ≡ ok (some who.x509) s
  unfolding cert_from_string
  cert_from_string_lem s = rw who.parsed refl

  pub verify_peer_lem : (s : T) → verify_peer judge (some who.x509) s ≡ ok tt s
  unfolding verify_peer get_x509
  verify_peer_lem s =
      (verify_cert_iff judge.store judge.auth_peers_list who.x509 s).1
        (who.new_ctx, who.init_ctx, who.valid, who.named)

  pub from_certificate_lem :
      (s : T) → from_certificate codec (some who.x509) s ≡ ok (some who.public) s
  unfolding from_certificate get_x509
  from_certificate_lem s = rw who.certifies refl

  pub sign_lem :
      (m sig : Bytes) (s : T)
      → rsa.new_md_ctx ≡ true
      → rsa.sign who.private m ≡ some sig
      → RsaCrypto.sign rsa own.privkey m s ≡ ok sig s
  unfolding RsaCrypto.sign get_pkey
  sign_lem m sig s h e = rw (h, who.holds_key, e) refl

  pub verify_lem :
      (m sig : Bytes) (s : T)
      → rsa.new_md_ctx ≡ true
      → rsa.verify who.public m sig ≡ some (pos 1)
      → RsaCrypto.verify rsa m sig (some who.public) s ≡ ok tt s
  unfolding RsaCrypto.verify get_pkey
  verify_lem m sig s h e = rw (h, e) refl

  pub decrypt_lem :
      (seal : RsaSeal) (secret text : Bytes) (s : T)
      → rsa.new_cipher_ctx ≡ true
      → rsa.unwrap who.private seal.ek ≡ some secret
      → length seal.iv ≡ aes128_key_len
      → rsa.decrypt secret seal.iv seal.payload ≡ some text
      → RsaCrypto.decrypt rsa own.privkey seal s ≡ ok text s
  unfolding RsaCrypto.decrypt get_pkey
  decrypt_lem seal secret text s h u l d = rw (h, who.holds_key, u, l, d) refl

pub encrypt_lem :
    {S G K P : Type 0} (libs : Libs S G K P) (public : P) (m ek payload iv : Bytes) (g g' : G)
    → libs.rsa.new_cipher_ctx ≡ true
    → libs.rsa.seal g public m ≡ (some (ek, payload, iv), g')
    → RsaCrypto.encrypt libs.rsa m (some public) g
      ≡ ok (record { ek = ek; iv = iv; payload = payload }) g'
unfolding RsaCrypto.encrypt get_pkey
encrypt_lem libs public m ek payload iv g g' h e = rw (h, e) refl

pub of_text_lem :
    {T : Type 0} (text : Bytes) (s : T)
    → length text ≡ 4
    → Nonce.of_text text s ≡ ok (record { nonce = text }) s
unfolding Nonce.of_text
of_text_lem text s h = rw h refl
