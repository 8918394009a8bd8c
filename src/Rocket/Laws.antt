-- ===== src/Rocket/Laws.antt =====
-- What a rocket looks like on the wire, and what its verification accepts.
use cybersec_proj.Base.{
  ℕ, ◌≤◌, ◌<◌, ◌≡◌, Bytes, ◌++◌, arith, length, ok, take_front, drop_front, drop_past, bind, sym,
  ==_refl, ltb-false,
}
use cybersec_proj.Protocol.{buffer_size, hmac_len}
use cybersec_proj.Word.{u32_mod, store32, network32, store32-htonl, ntohl-load32-network32}
use cybersec_proj.Key.Laws.{c_read_all}
use cybersec_proj.Openssl.{Openssl, IsSound, tag}
use cybersec_proj.Rocket
use cybersec_proj.Rocket.{Rocket}

-- The bytes that the MAC of a rocket covers.
abbrev pub message : Rocket → Bytes
message r = store32 r.payload_size ++ store32 r.sequence_number

-- Both numbers travel most significant byte first, after the tag.
pub to_bytes-htonl :
    (r : Rocket)
    → Rocket.to_bytes (Rocket.htonl r)
      ≡ r.hmac ++ (network32 r.payload_size ++ network32 r.sequence_number)
unfolding Rocket.to_bytes Rocket.htonl
to_bytes-htonl r = rw (store32-htonl, store32-htonl)

pub ntohl-from_bytes :
    (t : Bytes) (size seq : ℕ)
    → length t ≡ hmac_len
    → size < u32_mod
    → seq < u32_mod
    → Rocket.ntohl (Rocket.from_bytes (t ++ (network32 size ++ network32 seq)))
      ≡ record { hmac = t; payload_size = size; sequence_number = seq }
unfolding Rocket.from_bytes Rocket.ntohl
ntohl-from_bytes t size seq h k l = rw (
  take_front hmac_len t _ h,
  drop_front hmac_len t _ h,
  drop_past hmac_len 4 t (network32 size ++ network32 seq) h,
  ntohl-load32-network32 size k,
  ntohl-load32-network32 seq l,
)

module _ {C S : Type 0} (lib : Openssl C) {InSync : C → C → Type 0}
    (sound : IsSound lib InSync) where
  pub computehmac_lem :
      (key : Bytes) (r : Rocket) (s : S)
      → length key ≡ hmac_len
      → Rocket.computehmac lib key r s ≡ ok (record r { hmac = tag sound key (message r) }) s
  unfolding Rocket.computehmac
  computehmac_lem key r s h = rw (c_read_all key hmac_len h, (sound.hmac_tag key (message r)).1)

  pub verify_lem :
      (key : Bytes) (r : Rocket) (s : S)
      → length key ≡ hmac_len
      → r.hmac ≡ tag sound key (message r)
      → r.payload_size ≤ buffer_size
      → Rocket.verify lib key r.sequence_number r s ≡ ok r s
  unfolding Rocket.verify
  verify_lem key r s h t k = rw (
    computehmac_lem key r s h,
    bind,
    (sound.memcmp_iff _ _).1 (sym t),
    ltb-false _ _ k,
    ==_refl r.sequence_number,
    t,
  )

  -- A rocket that passes carries the tag of its own fields, announces no more than a buffer, and has
  -- the number that was expected.
  pub verified_rocket :
      (key : Bytes) (n : ℕ) (r r' : Rocket) (s s' : S)
      → length key ≡ hmac_len
      → Rocket.verify lib key n r s ≡ ok r' s'
      → (r' ≡ r)
        × (s' ≡ s)
        × (r.hmac ≡ tag sound key (message r))
        × (r.payload_size ≤ buffer_size)
        × (r.sequence_number ≡ n)
  unfolding Rocket.verify
  verified_rocket key n r r' s s' h e =
      ground
        (arith, computehmac_lem key r s h, (sound.memcmp_iff (tag sound key (message r)) r.hmac).0)
