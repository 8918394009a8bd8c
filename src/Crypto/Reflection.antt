-- ===== src/Crypto/Reflection.antt =====
-- Both directions of a session start with one key, one IV and one sequence number
-- (`Crypto::Crypto`): what becomes of the messages of an end that come back to it.
use cybersec_proj.Base.{
  ℕ, ◌*◌, ◌≤◌, ◌<◌, ◌≡◌, ◌∙◌, refl, sym, ap, Bytes, List, [], ◌++◌, arith, length, ok,
}
use cybersec_proj.Protocol.{hmac_len}
use cybersec_proj.Word.{u32_mod}
use cybersec_proj.Openssl.{Openssl, IsSound}
use cybersec_proj.Connection.{Socket}
use cybersec_proj.Connection.Stream.{Stream}
use cybersec_proj.Crypto
use cybersec_proj.Crypto.{Link, Statics}
use cybersec_proj.Crypto.Pending.{pending, IsValid}
use cybersec_proj.Crypto.Channel.{mark_after, IsMessage, All, concat, wire, Ready, plaintext}
use cybersec_proj.Crypto.Session.{send_each, recv_each, sum, send_each-wire, recv_each-plaintext}

module _ {S C : Type 0} (os : Socket S) (net : Stream os) (lib : Openssl C)
    {InSync : C → C → Type 0} (sound : IsSound lib InSync) where
  open net use {inbox, outbox}

  -- An end of a new session sends the messages `ps`, and the bytes that it sent are what arrives at it
  -- next. Then its calls of `recv` end normally and hand out its own plaintext as what the other end
  -- has sent.
  pub reflected_delivered :
      (session_key auth_key iv : Bytes) (sa sb : S) (st : Statics) (a' : Link S C) (ps : List Bytes)
      (ns : List ℕ)
      → length auth_key ≡ hmac_len
      → All IsMessage ps
      → 2 * length ps < u32_mod
      → outbox sa ≡ []
      → IsValid st
      → st.remaining ≡ 0
      → send_each os lib ps
          (record { sock = sa; crypto = Crypto.init lib session_key auth_key iv; statics = st })
        ≡ ok tt a'
      → inbox sb ≡ outbox a'.sock
      → All (λ n. 0 < n) ns
      → sum ns ≤ length (concat ps)
      → (bs : Bytes) × (b' : Link S C) × (rest : Bytes) × (recv_each os lib ns
            (record a' { sock = sb })
          ≡ ok bs b')
        × (concat ps ≡ bs ++ rest)
        × (length ns ≤ length bs)
  unfolding Crypto.init
  reflected_delivered session_key auth_key iv sa sb st a' ps ns hk hm hr ho v none_left sent hi pos
        fits =
      let start = Crypto.init lib session_key auth_key iv in
      let y = sound.init_sync session_key iv in
      let l0 : Link S C = record { sock = sa; crypto = start; statics = st } in
      let (a2, q, o, i, _, _, k, w) =
        send_each-wire os net lib sound ps l0 start.ctx_d y hm hk (omega arith) in
      let same : a' ≡ a2 = cc in
      let arrived : inbox sb ≡ wire sound auth_key start.ctx_e start.ctx_d y 0 ps =
        hi ∙ ap (λ (l : Link S C). outbox l.sock) same ∙ o ∙ rw ho in
      let l1 : Link S C = record {
        sock = sb;
        crypto = record (a2.crypto) {
          ctx_d = start.ctx_d;
          sequence_number_i = 0;
          auth_key = auth_key;
        };
        statics = st;
      } in
      let moved : record a2 { sock = sb } ≡ l1 = λ i. record {
        sock = sb;
        crypto = record (a2.crypto) { ctx_d = w.0 i; sequence_number_i = w.1 i; auth_key = k i };
        statics = w.2 i;
      } in
      let empty : pending st ≡ [] = rw none_left refl in
      let ready : Ready os net lib sound (mark_after sound start.ctx_e start.ctx_d y 0 ps) l1 ps =
        record {
          peer = start.ctx_e;
          sync = y;
          arrives = arrived;
          messages = hm;
          ends = refl;
          counts = refl;
          room = omega arith;
          keyed = hk;
          valid = v;
        } in
      let (bs, b', ps', r, e, lo, hi', h') =
        recv_each-plaintext os net lib sound ns l1 ps ready pos (rw empty fits) in
      (
        bs,
        b',
        plaintext os net lib sound b' ps',
        ap (λ (l : Link S C). recv_each os lib ns (record l { sock = sb })) same
            ∙ ap (recv_each os lib ns) moved
            ∙ r,
        sym (ap (λ (xs : Bytes). xs ++ concat ps) empty) ∙ e,
        lo,
      )
