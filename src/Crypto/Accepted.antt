-- ===== src/Crypto/Accepted.antt =====
-- What `Crypto::recv` accepts from the wire: only messages that carry valid tags and the sequence
-- numbers that come next. These are inversions of runs that return.
use cybersec_proj.Base.{
  ℕ, ◌+◌, ◌%◌, ◌≤◌, ◌≡◌, ◌≢◌, refl, ap, sym, ◌∙◌, Bytes, ◌++◌, arith, drop, length, ok, some, M,
  bind, bind-eq-ok, zoom-eq-ok, inl, inr, Option-cases,
}
use cybersec_proj.Protocol.{buffer_size, hmac_len}
use cybersec_proj.Word.{u32_mod}
use cybersec_proj.Openssl.{Openssl, IsSound, tag}
use cybersec_proj.Connection
use cybersec_proj.Connection.{Socket}
use cybersec_proj.Connection.Stream.{Stream, recv-prefix}
use cybersec_proj.Rocket
use cybersec_proj.Rocket.{Rocket}
use cybersec_proj.Rocket.Laws as RocketLaws
use cybersec_proj.SpaceCraft
use cybersec_proj.SpaceCraft.{SpaceCraft}
use cybersec_proj.SpaceCraft.Laws as SpaceCraftLaws
use cybersec_proj.Crypto
use cybersec_proj.Crypto.{Link, Statics}
use cybersec_proj.Crypto.Wire.{rocket_tag}

module _ {S C B : Type 0} (os : Socket S) (net : Stream os) (lib : Openssl C) where
  open net use {inbox}

  got_exactly :
      (n : ℕ) (l : Link S C) (f : Bytes → M (Link S C) B) {b : B} {l' : Link S C}
      → bind (Crypto.recv_exactly os lib n l) f ≡ ok b l'
      → (raw : Bytes) × (s1 : S) × (length raw ≡ n)
        × (inbox l.sock ≡ raw ++ inbox s1)
        × (f raw (record l { sock = s1 }) ≡ ok b l')
  unfolding Crypto.recv_exactly
  got_exactly n l f h =
      let (raw, l1, e, k) = bind-eq-ok (Crypto.recv_exactly os lib n l) f h in
      let (raw', s1, e', k') = zoom-eq-ok _ (Connection.recv os n l.sock) _ e in
      let (p, lo, hi) = recv-prefix os net l.sock s1 n raw' e' in
      (raw', s1, ground arith, p, ground arith)

  decrypted :
      (x : Bytes) (l : Link S C) (f : Bytes → M (Link S C) B) {b : B} {l' : Link S C}
      → bind (Crypto.decrypt os lib x l) f ≡ ok b l'
      → (p : Bytes) × (d' : C) × (lib.decrypt_update l.crypto.ctx_d x ≡ some (p, d'))
        × (length p ≡ length x)
        × (f p (Crypto.set_ctx_d d' l) ≡ ok b l')
  unfolding Crypto.decrypt
  decrypted x l f h = elim (Option-cases (lib.decrypt_update l.crypto.ctx_d x)) [
    | inl e ↦ ground arith
    | inr ((p, d'), e) ↦ (p, d', e, ground arith, ground arith)
  ]

module _ {S C B : Type 0} (os : Socket S) (net : Stream os) (lib : Openssl C)
    {InSync : C → C → Type 0} (sound : IsSound lib InSync) where
  open net use {inbox}

  rocket_received :
      (l : Link S C) (f : Rocket → M (Link S C) B) {b : B} {l' : Link S C}
      → length l.crypto.auth_key ≡ hmac_len
      → bind (Crypto.recv_rocket os lib l) f ≡ ok b l'
      → (raw : Bytes) × (s1 : S) × (r : Rocket) × (length raw ≡ 40)
        × (inbox l.sock ≡ raw ++ inbox s1)
        × (r ≡ Rocket.ntohl (Rocket.from_bytes raw))
        × (r.hmac ≡ tag sound l.crypto.auth_key (RocketLaws.message r))
        × (r.payload_size ≤ buffer_size)
        × (r.sequence_number ≡ l.crypto.sequence_number_i)
        × (f r (
              Crypto.set_sequence_number_i
                ((l.crypto.sequence_number_i + 1) % u32_mod)
                (record l { sock = s1 }))
            ≡ ok b l')
  unfolding Crypto.recv_rocket Crypto.next_i
  rocket_received l f hk h =
      let (r0, l0, e, k0) = bind-eq-ok (Crypto.recv_rocket os lib l) f h in
      let (raw, s1, n, a, k) = got_exactly os net lib 40 l _ e in
      let l1 =
        Crypto.set_sequence_number_i ((l.crypto.sequence_number_i + 1) % u32_mod)
          (record l { sock = s1 }) in
      let (er, es, t, z, q) =
        RocketLaws.verified_rocket lib sound l.crypto.auth_key l.crypto.sequence_number_i
          (Rocket.ntohl (Rocket.from_bytes raw)) r0 l1 l0 hk k in
      (raw, s1, Rocket.ntohl (Rocket.from_bytes raw), n, a, refl, t, z, q, cc)

  payload_received :
      (size : ℕ) (l : Link S C) (f : Bytes → M (Link S C) B) {b : B} {l' : Link S C}
      → length l.crypto.auth_key ≡ hmac_len
      → bind (Crypto.recv_payload os lib size l) f ≡ ok b l'
      → (raw x : Bytes) × (s1 : S) × (c : SpaceCraft) × (length raw ≡ 36)
        × (length x ≡ size)
        × (inbox l.sock ≡ raw ++ (x ++ inbox s1))
        × (c ≡ SpaceCraft.ntohl (SpaceCraft.from_bytes raw))
        × (c.hmac ≡ tag sound l.crypto.auth_key (SpaceCraftLaws.message c.sequence_number x))
        × (c.sequence_number ≡ l.crypto.sequence_number_i)
        × (f x (
              Crypto.set_sequence_number_i
                ((l.crypto.sequence_number_i + 1) % u32_mod)
                (record l { sock = s1 }))
            ≡ ok b l')
  unfolding Crypto.recv_payload Crypto.next_i
  payload_received size l f hk h =
      let (x0, l0, e, k0) = bind-eq-ok (Crypto.recv_payload os lib size l) f h in
      let (raw, s1, n1, a1, k1) = got_exactly os net lib 36 l _ e in
      let (x, s2, n2, a2, k2) = got_exactly os net lib size (record l { sock = s1 }) _ k1 in
      let (c', l2, k3, k4) =
        bind-eq-ok
          (SpaceCraft.verify lib l.crypto.auth_key l.crypto.sequence_number_i x
            (SpaceCraft.ntohl (SpaceCraft.from_bytes raw))
            (Crypto.set_sequence_number_i ((l.crypto.sequence_number_i + 1) % u32_mod)
              (record l { sock = s2 })))
          _ k2 in
      let (er, es, t, q) =
        SpaceCraftLaws.verified_craft lib sound l.crypto.auth_key x l.crypto.sequence_number_i
          (SpaceCraft.ntohl (SpaceCraft.from_bytes raw)) c' _ l2 hk k3 in
      (
        raw,
        x,
        s2,
        SpaceCraft.ntohl (SpaceCraft.from_bytes raw),
        n1,
        n2,
        a1 ∙ ap (◌++◌ raw) a2,
        refl,
        t,
        q,
        cc,
      )

module _ {S C : Type 0} (os : Socket S) (net : Stream os) (lib : Openssl C)
    {InSync : C → C → Type 0} (sound : IsSound lib InSync) where
  open net use {inbox}

  -- One message was taken from the front of the stream: a rocket with a valid tag, the expected
  -- number and a size that fits, a spacecraft with the next number and a valid tag over the payload,
  -- and a payload of the announced size, which was decrypted into the static buffer.
  pub record Accepted (l l' : Link S C) : Type 0 where
    pub raw_rocket : Bytes
    pub raw_craft : Bytes
    pub payload : Bytes
    pub plain : Bytes
    pub ctx : C
    pub arrived : inbox l.sock ≡ raw_rocket ++ (raw_craft ++ (payload ++ inbox l'.sock))
    pub rocket_size : length raw_rocket ≡ 40
    pub craft_size : length raw_craft ≡ 36
    pub rocket : Rocket.ntohl (Rocket.from_bytes raw_rocket) ≡ record {
      hmac = rocket_tag sound l.crypto.auth_key l.crypto.sequence_number_i payload;
      payload_size = length payload;
      sequence_number = l.crypto.sequence_number_i;
    }
    pub craft : SpaceCraft.ntohl (SpaceCraft.from_bytes raw_craft) ≡ record {
      hmac =
          tag sound l.crypto.auth_key
            (SpaceCraftLaws.message ((l.crypto.sequence_number_i + 1) % u32_mod) payload);
      sequence_number = (l.crypto.sequence_number_i + 1) % u32_mod;
    }
    pub fits : length payload ≤ buffer_size
    pub opened : lib.decrypt_update l.crypto.ctx_d payload ≡ some (plain, ctx)
    pub after : l'.crypto ≡ record (l.crypto) {
      ctx_d = ctx;
      sequence_number_i = ((l.crypto.sequence_number_i + 1) % u32_mod + 1) % u32_mod;
    }
    pub stored : l'.statics ≡ record {
      remaining = length payload;
      index = 0;
      payload = plain ++ drop (length plain) (l.statics.payload);
    }
    pub no_overflow : l'.crypto.sequence_number_i ≢ 0

  payload_opened :
      (size : ℕ) (x : Bytes) (l : Link S C) {l' : Link S C}
      → Crypto.open_payload os lib size x l ≡ ok tt l'
      → (p : Bytes) × (d' : C) × (lib.decrypt_update l.crypto.ctx_d x ≡ some (p, d'))
        × (l' ≡ record l {
          crypto = record (l.crypto) { ctx_d = d' };
          statics = record {
            remaining = size;
            index = 0;
            payload = p ++ drop (length p) (l.statics.payload);
          };
        })
        × (l.crypto.sequence_number_i ≢ 0)
  unfolding Crypto.open_payload
  payload_opened size x l h =
      let (p, d', e, n, k) = decrypted os net lib x l _ h in (p, d', e, ground arith, ground arith)

  -- If the key has its 32 bytes and `feed` returns, the bytes it consumed are a rocket, a spacecraft
  -- and a payload that fits a buffer; both headers carry the right tags under the session's key and
  -- the next two sequence numbers; and the new state holds the decrypted payload as unread.
  pub feed-Accepted :
      (l l' : Link S C)
      → length l.crypto.auth_key ≡ hmac_len
      → Crypto.feed os lib l ≡ ok tt l'
      → Accepted l l'
  unfolding Crypto.feed
  feed-Accepted l l' hk h =
      let (raw, s1, r, n1, a1, er, t1, z1, q1, k1) = rocket_received os net lib sound l _ hk h in
      let (raw', x, s2, c, n2, n3, a2, ec, t2, q2, k2) =
        payload_received os net lib sound r.payload_size _ _ hk k1 in
      let (p, d', e, el, nz) = payload_opened r.payload_size x _ k2 in
      let same_rocket : r ≡ record {
        hmac = rocket_tag sound l.crypto.auth_key l.crypto.sequence_number_i x;
        payload_size = length x;
        sequence_number = l.crypto.sequence_number_i;
      } =
        rw (n3, ← q1) (ground arith) in
      let same_craft : c ≡ record {
        hmac =
            tag sound l.crypto.auth_key
              (SpaceCraftLaws.message ((l.crypto.sequence_number_i + 1) % u32_mod) x);
        sequence_number = (l.crypto.sequence_number_i + 1) % u32_mod;
      } =
        rw (← q2) (ground arith) in
      record {
        raw_rocket = raw;
        raw_craft = raw';
        payload = x;
        plain = p;
        ctx = d';
        arrived =
            a1
            ∙ ap (◌++◌ raw) a2
            ∙ sym (ap (λ (m : Link S C). raw ++ (raw' ++ (x ++ inbox m.sock))) el);
        rocket_size = n1;
        craft_size = n2;
        rocket = sym er ∙ same_rocket;
        craft = sym ec ∙ same_craft;
        fits = omega arith;
        opened = e;
        after = ap (λ (m : Link S C). m.crypto) el;
        stored = ap (λ (m : Link S C). m.statics) el ∙ rw n3;
        no_overflow = rw el nz;
      }
