-- ===== src/Crypto/Session.antt =====
-- A whole session: what one end sends, the other end reads, whatever pieces it asks for.
use cybersec_proj.Base.{
  ℕ, ◌+◌, ◌*◌, ◌%◌, ◌≤◌, ◌<◌, ◌≡◌, ◌∙◌, refl, sym, ap, Bytes, List, [], ◌∷◌, ◌++◌, append_assoc,
  append-nil, arith, length, length-append, ok, bind, ◌==◌, false, M, ◌>>=◌, return,
}
use native.Mathlib.Nat.{mod-eq_of_lt}
use cybersec_proj.Protocol.{hmac_len}
use cybersec_proj.Word.{u32_mod}
use cybersec_proj.Openssl.{Openssl, IsSound}
use cybersec_proj.Connection.{Socket}
use cybersec_proj.Connection.Stream.{Stream}
use cybersec_proj.Crypto
use cybersec_proj.Crypto.{Link, Statics}
use cybersec_proj.Crypto.Wire.{send_frame, after_send}
use cybersec_proj.Crypto.Pending.{pending, IsValid}
use cybersec_proj.Crypto.Channel.{
  Mark, mark_after, last_cipher, SameReceiver, IsMessage, All, concat, wire, Ready, recv-Delivered,
  plaintext,
}

module _ {S C : Type 0} (os : Socket S) (lib : Openssl C) where
  -- One `send` for each message of a list.
  unfoldable pub send_each : List Bytes → M (Link S C) (Unit {0})
  send_each [] = return tt
  send_each (p ∷ ps) = do _ ← Crypto.send os lib p; send_each ps

  -- One `recv` for each size of a list; the result is all that they returned.
  pub recv_each : List ℕ → M (Link S C) Bytes
  recv_each [] = return []
  recv_each (n ∷ ns) = do bs ← Crypto.recv os lib n; rest ← recv_each ns; return (bs ++ rest)

abbrev pub sum : List ℕ → ℕ
sum [] = 0
sum (n ∷ ns) = n + sum ns

module _ {S C : Type 0} (os : Socket S) (net : Stream os) (lib : Openssl C)
    {InSync : C → C → Type 0} (sound : IsSound lib InSync) where
  open net use {inbox, outbox}

  -- Messages leave as their frames, in order, under sequence numbers that rise by two, if there is
  -- room for the numbers.
  pub send_each-wire :
      (ps : List Bytes) (l : Link S C) (d : C) (y : InSync l.crypto.ctx_e d)
      → All IsMessage ps
      → length l.crypto.auth_key ≡ hmac_len
      → l.crypto.sequence_number_o + 2 * length ps < u32_mod
      → (l' : Link S C) × (send_each os lib ps l ≡ ok tt l')
        × (outbox l'.sock
            ≡ outbox l.sock
              ++ wire sound l.crypto.auth_key l.crypto.ctx_e d y l.crypto.sequence_number_o ps)
        × (inbox l'.sock ≡ inbox l.sock)
        × (l'.crypto.ctx_e ≡ last_cipher sound l.crypto.ctx_e d y ps)
        × (l'.crypto.sequence_number_o ≡ l.crypto.sequence_number_o + 2 * length ps)
        × (l'.crypto.auth_key ≡ l.crypto.auth_key)
        × SameReceiver l l'
  unfolding send_each
  send_each-wire [] l d y m k r =
      (l, refl, sym (append-nil _), refl, refl, omega arith, refl, (refl, refl, refl))
  send_each-wire (p ∷ ps) l d y m k r =
      let (x, e', d', enc, dec, same, y') = sound.update_sync l.crypto.ctx_e d p y in
      let n : l.crypto.sequence_number_o + 2 < u32_mod = omega arith in
      let nz : ((l.crypto.sequence_number_o + 2) % u32_mod == 0) ≡ false = ground arith in
      let (s', q, o, i) =
        send_frame os net lib sound l p x e' m.0.0 m.0.1 k enc same (omega arith) in
      let (l2, q2, o2, i2, c2, n2, k2, w2) =
        send_each-wire ps (after_send l e' s') d' y' m.1 k (rw (mod-eq_of_lt n) (omega arith)) in
      (
        l2,
        rw (q, nz, q2),
        o2
            ∙ rw (mod-eq_of_lt n) (
                ap
                  (λ (bs : Bytes).
                    bs ++ wire sound l.crypto.auth_key e' d' y' (l.crypto.sequence_number_o + 2) ps)
                  o
                ∙ append_assoc (outbox l.sock) _ _),
        i2 ∙ i,
        c2,
        omega (arith, n2, mod-eq_of_lt n),
        k2,
        w2,
      )

  -- Reads of any positive sizes, together no more than the plaintext there is, return the front of the
  -- plaintext, without a gap and in order.
  pub recv_each-plaintext :
      {mark : Mark C} (ns : List ℕ) (l : Link S C) (ps : List Bytes)
      → Ready os net lib sound mark l ps
      → All (λ n. 0 < n) ns
      → sum ns ≤ length (plaintext os net lib sound l ps)
      → (bs : Bytes) × (l' : Link S C) × (ps' : List Bytes) × (recv_each os lib ns l ≡ ok bs l')
        × (plaintext os net lib sound l ps ≡ bs ++ plaintext os net lib sound l' ps')
        × (length ns ≤ length bs)
        × (length bs ≤ sum ns)
        × Ready os net lib sound mark l' ps'
  unfolding recv_each
  recv_each-plaintext [] l ps h k m = ([], l, ps, refl, refl, omega arith, omega arith, h)
  recv_each-plaintext (n ∷ ns) l ps h k m =
      let d = recv-Delivered os net lib sound l ps n h k.0 (omega arith) in
      let (bs, l', ps', r, e, lo, hi, h') = recv_each-plaintext ns d.after d.left d.ready k.1 (
        omega (
          arith,
          length-append d.bytes (plaintext os net lib sound d.after d.left),
          ap (length {A = ℕ}) d.split,
          d.at_most,
        )) in
      (
        d.bytes ++ bs,
        l',
        ps',
        rw (d.returns, bind, r),
        d.split
            ∙ ap (◌++◌ d.bytes) e
            ∙ sym (append_assoc d.bytes bs (plaintext os net lib sound l' ps')),
        omega (arith, length-append d.bytes bs, d.some_bytes),
        omega (arith, length-append d.bytes bs, d.at_most),
        h',
      )

  -- What one end sends after the handshake is what the other end reads: reads of any positive sizes,
  -- up to all that was sent, return the front of the messages put one after the other.
  pub session_delivers :
      (session_key auth_key iv : Bytes) (sa sb : S) (sta stb : Statics) (a' : Link S C)
      (ps : List Bytes) (ns : List ℕ)
      → let start = Crypto.init lib session_key auth_key iv in
        length auth_key ≡ hmac_len
        → All IsMessage ps
        → 2 * length ps < u32_mod
        → outbox sa ≡ []
        → send_each os lib ps (record { sock = sa; crypto = start; statics = sta }) ≡ ok tt a'
        → inbox sb ≡ outbox a'.sock
        → IsValid stb
        → stb.remaining ≡ 0
        → All (λ n. 0 < n) ns
        → sum ns ≤ length (concat ps)
        → (bs : Bytes) × (b' : Link S C) × (rest : Bytes) × (recv_each os lib ns
              (record { sock = sb; crypto = start; statics = stb })
            ≡ ok bs b')
          × (concat ps ≡ bs ++ rest)
          × (length ns ≤ length bs)
          × (length bs ≤ sum ns)
  unfolding Crypto.init
  session_delivers session_key auth_key iv sa sb sta stb a' ps ns hk hm hr ho sent hi v z pos fits =
      let start = Crypto.init lib session_key auth_key iv in
      let y = sound.init_sync session_key iv in
      let (a2, q, o, i, _, _, _, _) =
        send_each-wire ps (record { sock = sa; crypto = start; statics = sta }) _ y hm hk
          (omega arith) in
      let same : a' ≡ a2 = cc in
      let arrived : inbox sb ≡ wire sound auth_key start.ctx_e start.ctx_d y 0 ps =
        hi ∙ ap (λ (l : Link S C). outbox l.sock) same ∙ o ∙ rw ho in
      let none_left : pending stb ≡ [] = rw z in
      let ready : Ready os net lib sound (mark_after sound start.ctx_e start.ctx_d y 0 ps)
          (record { sock = sb; crypto = start; statics = stb }) ps =
        record {
          peer = start.ctx_e;
          sync = y;
          arrives = arrived;
          messages = hm;
          ends = refl;
          counts = refl;
          room = omega arith;
          keyed = hk;
          valid = v;
        } in
      let (bs, b', ps', r, e, lo, hi', h') =
        recv_each-plaintext ns (record { sock = sb; crypto = start; statics = stb }) ps ready pos
          (rw none_left fits) in
      (
        bs,
        b',
        plaintext os net lib sound b' ps',
        r,
        sym (ap (λ (xs : Bytes). xs ++ concat ps) none_left) ∙ e,
        lo,
        hi',
      )
