-- ===== src/Crypto/Receive.antt =====
-- What `Crypto::recv` does with a message that is in the format of `Crypto::send`.
use cybersec_proj.Base.{
  ℕ, ◌+◌, ◌%◌, ◌≤◌, ◌<◌, ◌≡◌, ◌∙◌, refl, ap, Bytes, ◌++◌, append_assoc, arith, length, drop, ok,
  throws, if◌then◌else◌, ◌==◌, some, bind, ==_refl,
}
use native.Mathlib.Nat.{mod-eq_of_lt}
use cybersec_proj.Exception.{ex_seq_num_overflow}
use cybersec_proj.Protocol.{buffer_size, hmac_len}
use cybersec_proj.Word.{u32_mod}
use cybersec_proj.Openssl.{Openssl, IsSound, tag}
use cybersec_proj.Connection.{Socket}
use cybersec_proj.Connection.Stream.{Stream, recv_lem}
use cybersec_proj.Rocket.Laws as RocketLaws
use cybersec_proj.SpaceCraft.Laws as SpaceCraftLaws
use cybersec_proj.Crypto
use cybersec_proj.Crypto.{Crypto, Link}
use cybersec_proj.Crypto.Wire.{
  frame, rocket_tag, rocket_frame, craft_frame, length-rocket_frame, length-craft_frame,
}

module _ {S C : Type 0} where
  -- The link after a message has been taken in: its plaintext `p` lies in the static payload.
  abbrev pub after_feed : Link S C → Bytes → C → S → Link S C
  after_feed l p d' s' = record l {
    sock = s';
    crypto = record (l.crypto) {
      ctx_d = d';
      sequence_number_i = (l.crypto.sequence_number_i + 2) % u32_mod;
    };
    statics = record {
      remaining = length p;
      index = 0;
      payload = p ++ drop (length p) (l.statics.payload);
    };
  }

module _ {S C : Type 0} (os : Socket S) (net : Stream os) (lib : Openssl C)
    {InSync : C → C → Type 0} (sound : IsSound lib InSync) where
  open net use {inbox, outbox}

  recv_exactly_lem :
      (l : Link S C) (xs ys : Bytes) (n : ℕ)
      → length xs ≡ n
      → 0 < n
      → inbox l.sock ≡ xs ++ ys
      → (s' : S) × (Crypto.recv_exactly os lib n l ≡ ok xs (record l { sock = s' }))
        × (inbox s' ≡ ys)
        × (outbox s' ≡ outbox l.sock)
  unfolding Crypto.recv_exactly
  recv_exactly_lem l xs ys n e h i =
      let (s', r, i', o') = recv_lem os net l.sock xs ys (omega arith) i in
      (s', rw (← e, r, ==_refl (length xs)), i', o')

  -- Where one frame arrives under the expected numbers, `feed` takes it in and keeps its plaintext. It
  -- throws after that if the sequence number has come round to zero.
  pub feed-frame :
      (l : Link S C) (p x : Bytes) (d' : C) (rest : Bytes)
      → 0 < length p
      → length p ≤ buffer_size
      → length l.crypto.auth_key ≡ hmac_len
      → lib.decrypt_update l.crypto.ctx_d x ≡ some (p, d')
      → length x ≡ length p
      → l.crypto.sequence_number_i + 1 < u32_mod
      → inbox l.sock ≡ frame sound l.crypto.auth_key l.crypto.sequence_number_i x ++ rest
      → (s' : S) × (Crypto.feed os lib l ≡ (
          if (l.crypto.sequence_number_i + 2) % u32_mod == 0
          then throws ex_seq_num_overflow (after_feed l p d' s')
          else ok tt (after_feed l p d' s')))
        × (inbox s' ≡ rest)
        × (outbox s' ≡ outbox l.sock)
  unfolding Crypto.feed Crypto.recv_rocket Crypto.recv_payload Crypto.open_payload Crypto.next_i
      Crypto.decrypt
  feed-frame l p x d' rest h k hk e lx fits i =
      let key = l.crypto.auth_key in
      let seq = l.crypto.sequence_number_i in
      let n1 : seq + 1 < u32_mod = omega arith in
      let n2 : (seq + 1 + 1) % u32_mod ≡ (seq + 2) % u32_mod = omega arith in
      let regroup : frame sound key seq x ++ rest
          ≡ rocket_frame sound key seq x ++ (craft_frame sound key (seq + 1) x ++ (x ++ rest)) =
        append_assoc (rocket_frame sound key seq x) _ rest
        ∙ ap (◌++◌ (rocket_frame sound key seq x))
            (append_assoc (craft_frame sound key (seq + 1) x) x rest) in
      let (s1, r1, i1, o1) =
        recv_exactly_lem l (rocket_frame sound key seq x)
          (craft_frame sound key (seq + 1) x ++ (x ++ rest)) 40
          (length-rocket_frame sound key seq x) (omega arith) (i ∙ regroup) in
      let l1 = Crypto.set_sequence_number_i (seq + 1) (record l { sock = s1 }) in
      let (s2, r2, i2, o2) =
        recv_exactly_lem l1 (craft_frame sound key (seq + 1) x) (x ++ rest) 36
          (length-craft_frame sound key (seq + 1) x) (omega arith) i1 in
      let (s3, r3, i3, o3) =
        recv_exactly_lem (record l1 { sock = s2 }) x rest (length x) refl (omega arith) i2 in
      (
        s3,
        rw
            (
              r1,
              bind,
              mod-eq_of_lt n1,
              RocketLaws.ntohl-from_bytes (rocket_tag sound key seq x) (length x) seq
                  (sound.hmac_tag key _).2 (omega arith) (omega arith),
              RocketLaws.verify_lem lib sound key
                  (record {
                    hmac = rocket_tag sound key seq x;
                    payload_size = length x;
                    sequence_number = seq;
                  })
                  l1 hk refl (omega arith),
              bind,
              r2,
              bind,
              r3,
              bind,
              SpaceCraftLaws.ntohl-from_bytes (tag sound key (SpaceCraftLaws.message (seq + 1) x))
                  (seq + 1) (sound.hmac_tag key _).2 n1,
              SpaceCraftLaws.verify_lem lib sound key x
                  (record {
                    hmac = tag sound key (SpaceCraftLaws.message (seq + 1) x);
                    sequence_number = seq + 1;
                  })
                  _ hk refl,
              bind,
              e,
            )
            (ground (arith, n2, lx)),
        i3,
        o3 ∙ o2 ∙ o1,
      )
