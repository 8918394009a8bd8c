-- ===== src/Handshake/Script.antt =====
-- The values that an honest handshake passes, and the bytes that they make on the wire.
use cybersec_proj.Base.{
  ℕ, ◌+◌, ◌≤◌, ◌<◌, ◌≡◌, ◌∙◌, refl, sym, ap, Bytes, [], ◌++◌, append-nil, some, arith, ok, length,
  length-append,
}
use cybersec_proj.Base.Int.{pos}
use cybersec_proj.Protocol.{buffer_size, aes128_key_len, hmac_key_len}
use cybersec_proj.Connection.Strings.{text_frame}
use cybersec_proj.Random.{IsSeeded, cyb_rand_lem}
use cybersec_proj.Key
use cybersec_proj.Nonce
use cybersec_proj.CertManager.{CertManager}
use cybersec_proj.RsaSeal
use cybersec_proj.RsaSeal.{RsaSeal}
use cybersec_proj.RsaSeal.RoundTrip.{IsSealed, seal_frame, str_lem, from_string-str}
use cybersec_proj.Handshake.{Libs, Keys}
use cybersec_proj.Handshake.Setup.{IsSoundRsa, Identity}

pub from_frame :
    {T : Type 0} (seal : RsaSeal) (s : T)
    → IsSealed seal
    → RsaSeal.from_string (seal_frame seal) s ≡ ok seal s
from_frame {T} seal s v =
    ap (λ (text : Bytes). RsaSeal.from_string {S = T} text s) (sym (append-nil (seal_frame seal)))
    ∙ from_string-str seal [] (seal_frame seal) s v (str_lem seal s v)

module _ {S G K P : Type 0} (libs : Libs S G K P) {Pair : P → P → Type 0} where
  -- An envelope with the text `m` for the end `who`.
  pub record Sealed {own judge : CertManager K P} (who : Identity libs Pair own judge) (m : Bytes)
      (g g' : G) : Type 0 where
    pub seal : RsaSeal
    pub secret : Bytes
    pub made : libs.rsa.seal g who.public m ≡ (some (seal.ek, seal.payload, seal.iv), g')
    pub unwrapped : libs.rsa.unwrap who.private seal.ek ≡ some secret
    pub opened : libs.rsa.decrypt secret seal.iv seal.payload ≡ some m
    pub whole : IsSealed seal
    pub some_text : 0 < length (seal_frame seal)
    pub fits : length (seal_frame seal) ≤ buffer_size

  -- A signature of `m` by the end `who`.
  pub record Signed {own judge : CertManager K P} (who : Identity libs Pair own judge) (m : Bytes)
      : Type 0 where
    pub sig : Bytes
    pub made : libs.rsa.sign who.private m ≡ some sig
    pub good : libs.rsa.verify who.public m sig ≡ some (pos 1)
    pub some_text : 0 < length sig
    pub fits : length sig ≤ buffer_size

  -- The values of a handshake between `client`, whose random source is at `gc`, and `server`, whose
  -- random source is at `gs`.
  pub record Script {client_cm server_cm : CertManager K P}
      (client : Identity libs Pair client_cm server_cm)
      (server : Identity libs Pair server_cm client_cm) (gc gs : G) : Type 0 where
    pub nonce_client : Bytes
    pub gc' : G
    pub nonce_client_drawn :
        Nonce.generate libs.random gc ≡ ok (record { nonce = nonce_client }) gc'
    pub nonce_client_size : length nonce_client ≡ 4
    pub keys : Keys
    pub nonce_server : Bytes
    pub g1 : G
    pub g2 : G
    pub g3 : G
    pub g4 : G
    pub g5 : G
    pub g6 : G
    pub session_key_drawn : Key.generate libs.random aes128_key_len gs ≡ ok keys.session_key g1
    pub auth_key_drawn : Key.generate libs.random hmac_key_len g1 ≡ ok keys.auth_key g2
    pub iv_drawn : Key.generate libs.random aes128_key_len g2 ≡ ok keys.iv g3
    pub nonce_server_drawn : Nonce.generate libs.random g3 ≡ ok (record { nonce = nonce_server }) g4
    pub session_key_size : length keys.session_key ≡ aes128_key_len
    pub auth_key_size : length keys.auth_key ≡ hmac_key_len
    pub iv_size : length keys.iv ≡ aes128_key_len
    pub nonce_server_size : length nonce_server ≡ 4
    pub session : Sealed client keys.session_key g4 g5
    pub auth : Sealed client keys.auth_key g5 g6
    pub offer_signed :
        Signed server
          (seal_frame session.seal ++ (seal_frame auth.seal ++ (keys.iv ++ nonce_client)))
    pub nonce_signed : Signed client nonce_server

  module _ {client_cm server_cm : CertManager K P} {client : Identity libs Pair client_cm server_cm}
      {server : Identity libs Pair server_cm client_cm} {gc gs : G} where
    -- What the client sends, and what the server sends.
    abbrev pub to_server : Script client server gc gs → Bytes
    to_server sc =
        text_frame client.text ++ (text_frame sc.nonce_client ++ text_frame sc.nonce_signed.sig)

    abbrev pub to_client : Script client server gc gs → Bytes
    to_client sc =
        text_frame server.text
        ++ (text_frame (seal_frame sc.session.seal)
            ++ (text_frame (seal_frame sc.auth.seal)
                ++ (text_frame sc.keys.iv
                    ++ (text_frame sc.offer_signed.sig ++ text_frame sc.nonce_server))))

  module _ {Seeded : G → Type 0} (works : IsSeeded libs.random Seeded)
      (sound : IsSoundRsa libs.rsa Pair Seeded) where
    sealed :
        {own judge : CertManager K P} (who : Identity libs Pair own judge) (m : Bytes) (g : G)
        → 0 < length m
        → length m ≤ 1024
        → Seeded g
        → (g' : G) × Sealed who m g g' × Seeded g'
    sealed who m g h k ready =
        let (ek, payload, iv, secret, g', made, u, d, a, b, c, e, ready') =
          sound.seals who.public who.private g m who.matches ready in
        let seal : RsaSeal = record { ek = ek; iv = iv; payload = payload } in
        let size : length (seal_frame seal) ≡ 12 + length ek + length payload + length iv =
          omega (arith, length-append ek _, length-append payload _) in
        (
          g',
          record {
            seal = seal;
            secret = secret;
            made = made;
            unwrapped = u;
            opened = d;
            whole = record {
              some_ek = a;
              ek_fits = omega arith;
              some_payload = omega arith;
              payload_fits = omega arith;
              iv_size = e;
            };
            some_text = omega (arith, size);
            fits = omega (arith, size);
          },
          ready',
        )

    signed :
        {own judge : CertManager K P} (who : Identity libs Pair own judge) (m : Bytes)
        → Signed who m
    signed who m =
        let (sig, e, v, a, b) = sound.signs who.public who.private m who.matches in
        record { sig = sig; made = e; good = v; some_text = a; fits = omega arith }

    nonce_drawn :
        (g : G)
        → Seeded g
        → (n : Bytes) × (g' : G) × (Nonce.generate libs.random g ≡ ok (record { nonce = n }) g')
          × (length n ≡ 4)
          × Seeded g'
    unfolding Nonce.generate
    nonce_drawn g h =
        let (n, g', e, l, h') = cyb_rand_lem libs.random works g 4 h in (n, g', rw e refl, l, h')

    key_drawn :
        (g : G) (n : ℕ)
        → Seeded g
        → (k : Bytes) × (g' : G) × (Key.generate libs.random n g ≡ ok k g')
          × (length k ≡ n)
          × Seeded g'
    unfolding Key.generate
    key_drawn g n h = cyb_rand_lem libs.random works g n h

    -- From seeded random sources such values come, whatever they are.
    pub Script-exists :
        {client_cm server_cm : CertManager K P} (client : Identity libs Pair client_cm server_cm)
        (server : Identity libs Pair server_cm client_cm) (gc gs : G)
        → Seeded gc
        → Seeded gs
        → Script client server gc gs
    Script-exists client server gc gs hc hs =
        let (nc, gc', ec, lc, _) = nonce_drawn gc hc in
        let (ks, g1, e1, l1, h1) = key_drawn gs aes128_key_len hs in
        let (ka, g2, e2, l2, h2) = key_drawn g1 hmac_key_len h1 in
        let (iv, g3, e3, l3, h3) = key_drawn g2 aes128_key_len h2 in
        let (ns, g4, e4, l4, h4) = nonce_drawn g3 h3 in
        let (g5, session, h5) = sealed client ks g4 (omega arith) (omega arith) h4 in
        let (g6, auth, h6) = sealed client ka g5 (omega arith) (omega arith) h5 in
        record {
          nonce_client = nc;
          gc' = gc';
          nonce_client_drawn = ec;
          nonce_client_size = lc;
          keys = record { session_key = ks; auth_key = ka; iv = iv };
          nonce_server = ns;
          g1 = g1;
          g2 = g2;
          g3 = g3;
          g4 = g4;
          g5 = g5;
          g6 = g6;
          session_key_drawn = e1;
          auth_key_drawn = e2;
          iv_drawn = e3;
          nonce_server_drawn = e4;
          session_key_size = l1;
          auth_key_size = l2;
          iv_size = l3;
          nonce_server_size = l4;
          session = session;
          auth = auth;
          offer_signed = signed server _;
          nonce_signed = signed client ns;
        }
