-- ===== src/SpaceCraft/Laws.antt =====
-- What a spacecraft looks like on the wire, and what its verification accepts.
use cybersec_proj.Base.{
  ℕ, ◌<◌, ◌≡◌, Bytes, ◌++◌, arith, length, ok, take_front, drop_front, bind, sym, ==_refl,
}
use cybersec_proj.Protocol.{hmac_len}
use cybersec_proj.Word.{u32_mod, store32, network32, store32-htonl, ntohl-load32-network32}
use cybersec_proj.Key.Laws.{c_read_all}
use cybersec_proj.Openssl.{Openssl, IsSound, tag}
use cybersec_proj.SpaceCraft
use cybersec_proj.SpaceCraft.{SpaceCraft}

-- The bytes that the MAC of a spacecraft covers.
abbrev pub message : ℕ → Bytes → Bytes
message seq payload = store32 seq ++ payload

-- The number travels most significant byte first, after the tag.
pub to_bytes-htonl :
    (c : SpaceCraft)
    → SpaceCraft.to_bytes (SpaceCraft.htonl c) ≡ c.hmac ++ network32 c.sequence_number
unfolding SpaceCraft.to_bytes SpaceCraft.htonl
to_bytes-htonl c = rw store32-htonl

pub ntohl-from_bytes :
    (t : Bytes) (seq : ℕ)
    → length t ≡ hmac_len
    → seq < u32_mod
    → SpaceCraft.ntohl (SpaceCraft.from_bytes (t ++ network32 seq))
      ≡ record { hmac = t; sequence_number = seq }
unfolding SpaceCraft.from_bytes SpaceCraft.ntohl
ntohl-from_bytes t seq h l =
    rw (take_front hmac_len t _ h, drop_front hmac_len t _ h, ntohl-load32-network32 seq l)

module _ {C S : Type 0} (lib : Openssl C) {InSync : C → C → Type 0}
    (sound : IsSound lib InSync) where
  pub computehmac_lem :
      (key p : Bytes) (c : SpaceCraft) (s : S)
      → length key ≡ hmac_len
      → SpaceCraft.computehmac lib key p c s
        ≡ ok (record c { hmac = tag sound key (message c.sequence_number p) }) s
  unfolding SpaceCraft.computehmac
  computehmac_lem key p c s h =
      rw (c_read_all key hmac_len h, (sound.hmac_tag key (message c.sequence_number p)).1)

  pub verify_lem :
      (key p : Bytes) (c : SpaceCraft) (s : S)
      → length key ≡ hmac_len
      → c.hmac ≡ tag sound key (message c.sequence_number p)
      → SpaceCraft.verify lib key c.sequence_number p c s ≡ ok c s
  unfolding SpaceCraft.verify
  verify_lem key p c s h t = rw (
    computehmac_lem key p c s h,
    bind,
    (sound.memcmp_iff _ _).1 (sym t),
    ==_refl c.sequence_number,
    t,
  )

  -- A spacecraft that passes carries the tag of its number and the payload, and has the number that
  -- was expected.
  pub verified_craft :
      (key p : Bytes) (n : ℕ) (c c' : SpaceCraft) (s s' : S)
      → length key ≡ hmac_len
      → SpaceCraft.verify lib key n p c s ≡ ok c' s'
      → (c' ≡ c)
        × (s' ≡ s)
        × (c.hmac ≡ tag sound key (message c.sequence_number p))
        × (c.sequence_number ≡ n)
  unfolding SpaceCraft.verify
  verified_craft key p n c c' s s' h e = ground (
    arith,
    computehmac_lem key p c s h,
    (sound.memcmp_iff (tag sound key (message c.sequence_number p)) c.hmac).0,
  )
