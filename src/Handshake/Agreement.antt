-- ===== src/Handshake/Agreement.antt =====
-- Both `handshake` functions together.
use cybersec_proj.Base.{◌≡◌, ◌∙◌, ap, Bytes, [], ◌++◌, append-nil, ok, length, sym}
use cybersec_proj.Protocol.{hmac_len}
use cybersec_proj.Connection.Stream.{Stream}
use cybersec_proj.Random.{IsSeeded}
use cybersec_proj.CertManager.{CertManager}
use cybersec_proj.Handshake.{Party, Keys, Libs, party}
use cybersec_proj.Handshake.Server
use cybersec_proj.Handshake.Client
use cybersec_proj.Handshake.Setup.{IsSoundRsa, Identity}
use cybersec_proj.Handshake.Script.{to_server, to_client, Script-exists}
use cybersec_proj.Handshake.ClientRun.{client_follows}
use cybersec_proj.Handshake.ServerRun.{server_follows}

module _ {S G K P : Type 0} (libs : Libs S G K P) (net : Stream libs.os) {Pair : P → P → Type 0}
    {Seeded : G → Type 0} (works : IsSeeded libs.random Seeded)
    (sound : IsSoundRsa libs.rsa Pair Seeded) {client_cm server_cm : CertManager K P}
    (client : Identity libs Pair client_cm server_cm)
    (server : Identity libs Pair server_cm client_cm) where
  open net use {inbox, outbox}

  -- Both ends have seeded random sources and certificates that the other end accepts, and `arriving`
  -- is a new connection on which the given bytes arrive. Then there are bytes for either direction such
  -- that each end, when the bytes of the other arrive, sends its own and nothing else, reads all that
  -- arrives, and returns; and both return the same keys, of which the authentication key has the
  -- 32 bytes that the channel uses.
  pub handshakes_agree :
      (arriving : Bytes → S) (gc gs : G)
      → ((bs : Bytes) → inbox (arriving bs) ≡ bs)
      → ((bs : Bytes) → outbox (arriving bs) ≡ [])
      → Seeded gc
      → Seeded gs
      → (up down : Bytes) × (keys : Keys) × (c s : Party S G) × (Client.handshake libs client_cm
            (party (arriving down) gc)
          ≡ ok keys c)
        × (Server.handshake libs server_cm (party (arriving up) gs) ≡ ok keys s)
        × (outbox c.sock ≡ up)
        × (outbox s.sock ≡ down)
        × (inbox c.sock ≡ [])
        × (inbox s.sock ≡ [])
        × (length keys.auth_key ≡ hmac_len)
  handshakes_agree arriving gc gs a b hc hs =
      let sc = Script-exists libs works sound client server gc gs hc hs in
      let down = to_client libs sc in
      let up = to_server libs sc in
      let (s1, r1, i1, o1) =
        client_follows libs net works sound client server sc (arriving down) []
          (a down ∙ sym (append-nil down)) in
      let (s2, r2, i2, o2) =
        server_follows libs net works sound client server sc (arriving up) []
          (a up ∙ sym (append-nil up)) in
      (
        up,
        down,
        sc.keys,
        party s1 sc.gc',
        party s2 sc.g6,
        r1,
        r2,
        o1 ∙ ap (λ (bs : Bytes). bs ++ up) (b down),
        o2 ∙ ap (λ (bs : Bytes). bs ++ down) (b up),
        i1,
        i2,
        sc.auth_key_size,
      )
