-- ===== src/Crypto/Wire.antt =====
-- The format of one message on the wire, which is what `Crypto::send` writes.
use cybersec_proj.Base.{
  ℕ, refl, ◌+◌, ◌%◌, ◌≤◌, ◌<◌, ◌≡◌, ◌∙◌, ap, Bytes, ◌++◌, append_assoc, arith, length,
  length-append, ok, throws, fault, if◌then◌else◌, ◌==◌, leb, false, some, [], bind,
}
use native.Mathlib.Nat.{mod-eq_of_lt}
use cybersec_proj.Exception.{ex_seq_num_overflow}
use cybersec_proj.Protocol.{buffer_size, hmac_len}
use cybersec_proj.Word.{u32_mod, network32}
use cybersec_proj.Openssl.{Openssl, IsSound, tag}
use cybersec_proj.Connection.{Socket}
use cybersec_proj.Connection.Stream.{Stream, send_lem}
use cybersec_proj.Rocket
use cybersec_proj.Rocket.Laws as RocketLaws
use cybersec_proj.SpaceCraft
use cybersec_proj.SpaceCraft.Laws as SpaceCraftLaws
use cybersec_proj.Crypto
use cybersec_proj.Crypto.{Crypto, Link}

-- Key, sequence number and encrypted payload give the 76 bytes of the headers and the payload.
module _ {C : Type 0} {lib : Openssl C} {InSync : C → C → Type 0} (sound : IsSound lib InSync) where
  abbrev pub rocket_tag : Bytes → ℕ → Bytes → Bytes
  rocket_tag key seq x =
      tag sound key
        (RocketLaws.message (record { hmac = []; payload_size = length x; sequence_number = seq }))

  abbrev pub rocket_frame : Bytes → ℕ → Bytes → Bytes
  rocket_frame key seq x = rocket_tag key seq x ++ (network32 (length x) ++ network32 seq)

  abbrev pub craft_frame : Bytes → ℕ → Bytes → Bytes
  craft_frame key seq x = tag sound key (SpaceCraftLaws.message seq x) ++ network32 seq

  abbrev pub frame : Bytes → ℕ → Bytes → Bytes
  frame key seq x = rocket_frame key seq x ++ (craft_frame key (seq + 1) x ++ x)

  pub length-rocket_frame :
      (key : Bytes) (seq : ℕ) (x : Bytes) → length (rocket_frame key seq x) ≡ 40
  length-rocket_frame key seq x = omega (
    arith,
    length-append (rocket_tag key seq x) (network32 (length x) ++ network32 seq),
    (sound.hmac_tag key _).2,
  )

  pub length-craft_frame : (key : Bytes) (seq : ℕ) (x : Bytes) → length (craft_frame key seq x) ≡ 36
  length-craft_frame key seq x = omega (
    arith,
    length-append (tag sound key (SpaceCraftLaws.message seq x)) (network32 seq),
    (sound.hmac_tag key _).2,
  )

module _ {S C : Type 0} where
  -- The link after a message: the cipher and the sequence number have moved on.
  abbrev pub after_send : Link S C → C → S → Link S C
  after_send l e' s' = record l {
    sock = s';
    crypto = record (l.crypto) {
      ctx_e = e';
      sequence_number_o = (l.crypto.sequence_number_o + 2) % u32_mod;
    };
  }

module _ {S C : Type 0} (os : Socket S) (net : Stream os) (lib : Openssl C)
    {InSync : C → C → Type 0} (sound : IsSound lib InSync) where
  open net use {inbox, outbox}

  encrypt_lem :
      (l : Link S C) (p x : Bytes) (e' : C)
      → length p ≤ buffer_size
      → lib.encrypt_update l.crypto.ctx_e p ≡ some (x, e')
      → length x ≡ length p
      → Crypto.encrypt os lib p l ≡ ok x (Crypto.set_ctx_e e' l)
  unfolding Crypto.encrypt
  encrypt_lem l p x e' h e k = ground arith

  -- With a whole key and a message of 1 to BUFFER_SIZE bytes, and as long as its second sequence
  -- number fits, `send` puts one frame on the wire. It throws after that if the sequence number has
  -- come round to zero.
  pub send_frame :
      (l : Link S C) (p x : Bytes) (e' : C)
      → 0 < length p
      → length p ≤ buffer_size
      → length l.crypto.auth_key ≡ hmac_len
      → lib.encrypt_update l.crypto.ctx_e p ≡ some (x, e')
      → length x ≡ length p
      → l.crypto.sequence_number_o + 1 < u32_mod
      → (s' : S) × (Crypto.send os lib p l ≡ (
          if (l.crypto.sequence_number_o + 2) % u32_mod == 0
          then throws ex_seq_num_overflow (after_send l e' s')
          else ok (76 + length p) (after_send l e' s')))
        × (outbox s' ≡ outbox l.sock ++ frame sound l.crypto.auth_key l.crypto.sequence_number_o x)
        × (inbox s' ≡ inbox l.sock)
  unfolding Crypto.send Crypto.next_o Rocket.init SpaceCraft.init
  send_frame l p x e' h k hk e lx fits =
      let key = l.crypto.auth_key in
      let seq = l.crypto.sequence_number_o in
      let n1 : seq + 1 < u32_mod = omega arith in
      let n2 : (seq + 1 + 1) % u32_mod ≡ (seq + 2) % u32_mod = omega arith in
      let (s1, r1, i1, o1) =
        send_lem os net l.sock (rocket_frame sound key seq x)
          (omega (arith, length-rocket_frame sound key seq x)) in
      let (s2, r2, i2, o2) =
        send_lem os net s1 (craft_frame sound key (seq + 1) x)
          (omega (arith, length-craft_frame sound key (seq + 1) x)) in
      let (s3, r3, i3, o3) = send_lem os net s2 x (omega arith) in
      (
        s3,
        rw
            (
              encrypt_lem l p x e' k e lx,
              bind,
              ← lx,
              RocketLaws.computehmac_lem lib sound key (Rocket.init (length x) seq) _ hk,
              bind,
              mod-eq_of_lt n1,
              SpaceCraftLaws.computehmac_lem lib sound key x (SpaceCraft.init (seq + 1)) _ hk,
              bind,
              RocketLaws.to_bytes-htonl,
              SpaceCraftLaws.to_bytes-htonl,
              r1,
              bind,
              r2,
              bind,
              r3,
              bind,
            )
            (ground (
              arith,
              n2,
              lx,
              length-rocket_frame sound key seq x,
              length-craft_frame sound key (seq + 1) x,
            )),
        o3
            ∙ ap (λ (bs : Bytes). bs ++ x)
                (o2 ∙ ap (λ (bs : Bytes). bs ++ craft_frame sound key (seq + 1) x) o1)
            ∙ append_assoc (outbox l.sock ++ rocket_frame sound key seq x) _ x
            ∙ append_assoc (outbox l.sock) (rocket_frame sound key seq x) _,
        i3 ∙ i2 ∙ i1,
      )

-- A message longer than BUFFER_SIZE that the cipher takes is written past the end of `encrypted_payload`,
-- which `send` has on its stack.
pub send_overrun :
    {S C : Type 0} (os : Socket S) (lib : Openssl C) (p dest : Bytes) (ctx : C) (l : Link S C)
    → lib.encrypt_update l.crypto.ctx_e p ≡ some (dest, ctx)
    → buffer_size < length p
    → Crypto.send os lib p l ≡ fault
unfolding Crypto.send Crypto.encrypt
send_overrun os lib p dest ctx l e h =
    let big : leb (length p) buffer_size ≡ false = ground arith in rw (e, big) refl
