-- ===== src/Server/Reply.antt =====
-- What `sendCmd` and the replies put on the wire, and the listing that does not fit.
use cybersec_proj.Base.{
  ◌+◌, ◌*◌, ◌%◌, ◌<◌, ◌≡◌, ◌∙◌, refl, sym, ap, false, Bytes, List, [], ◌∷◌, ◌++◌, append_assoc,
  arith, length, length-append, ok, fault, lt→ltb, ◌==◌,
}
use native.Mathlib.Nat.{mod-eq_of_lt}
use cybersec_proj.Protocol.{buffer_size, hmac_len}
use cybersec_proj.Word.{u32_mod}
use cybersec_proj.Openssl.{Openssl, IsSound}
use cybersec_proj.Connection.{Socket}
use cybersec_proj.Connection.Stream.{Stream}
use cybersec_proj.Crypto.{Link}
use cybersec_proj.Crypto.Wire.{send_frame, send_overrun, after_send}
use cybersec_proj.Crypto.Channel.{IsMessage, All, wire, last_cipher, SameReceiver}
use cybersec_proj.Server
use cybersec_proj.Server.{FileSystem, Client}

All-append : {A : Type 0} (P : A → Type 0) (xs ys : List A) → All P xs → All P ys → All P (xs ++ ys)
All-append P [] ys h k = k
All-append P (x ∷ xs) ys h k = (h.0, All-append P xs ys h.1 k)

module _ {S C F : Type 0} (os : Socket S) (net : Stream os) (lib : Openssl C)
    {InSync : C → C → Type 0} (sound : IsSound lib InSync) (files : FileSystem F) where
  open net use {inbox, outbox}

  -- From `l` to `l'` exactly the messages `sent` were put on the wire, in order, where `d` is the
  -- cipher of the receiver at `l`. Nothing is
  -- received.
  pub record Sent (l : Link S C) (d : C) (y : InSync l.crypto.ctx_e d) (l' : Link S C)
      (sent : List Bytes) : Type 0 where
    pub peer : C
    pub sync : InSync l'.crypto.ctx_e peer
    pub carries :
        (more : List Bytes)
        → outbox l'.sock
            ++ wire sound l'.crypto.auth_key l'.crypto.ctx_e peer sync l'.crypto.sequence_number_o
                more
          ≡ outbox l.sock
            ++ wire sound l.crypto.auth_key l.crypto.ctx_e d y l.crypto.sequence_number_o
                (sent ++ more)
    pub ended :
        (more : List Bytes)
        → last_cipher sound l'.crypto.ctx_e peer sync more
          ≡ last_cipher sound l.crypto.ctx_e d y (sent ++ more)
    pub receiver : SameReceiver l l'
    pub messages : All IsMessage sent
    pub counted : l'.crypto.sequence_number_o ≡ l.crypto.sequence_number_o + 2 * length sent
    pub keyed : l'.crypto.auth_key ≡ l.crypto.auth_key
    pub unread : inbox l'.sock ≡ inbox l.sock

  pub Sent-trans :
      {l : Link S C} {d : C} {y : InSync l.crypto.ctx_e d} {l1 l2 : Link S C} {ps qs : List Bytes}
      → (r : Sent l d y l1 ps) → Sent l1 r.peer r.sync l2 qs
      → Sent l d y l2 (ps ++ qs)
  Sent-trans {l = l} {d = d} {y = y} {ps = ps} {qs = qs} r t = record {
    peer = t.peer;
    sync = t.sync;
    carries = λ more.
        t.carries more
        ∙ r.carries (qs ++ more)
        ∙ ap
            (λ (ms : List Bytes).
              outbox l.sock
              ++ wire sound l.crypto.auth_key l.crypto.ctx_e d y l.crypto.sequence_number_o ms)
            (sym (append_assoc ps qs more));
    ended = λ more.
        t.ended more
        ∙ r.ended (qs ++ more)
        ∙ ap (λ (ms : List Bytes). last_cipher sound l.crypto.ctx_e d y ms)
            (sym (append_assoc ps qs more));
    receiver =
        (t.receiver.0 ∙ r.receiver.0, t.receiver.1 ∙ r.receiver.1, t.receiver.2 ∙ r.receiver.2);
    messages = All-append IsMessage ps qs r.messages t.messages;
    counted = omega (arith, r.counted, t.counted, length-append ps qs);
    keyed = t.keyed ∙ r.keyed;
    unread = t.unread ∙ r.unread;
  }

  -- The same as `send_cmd_lem`, with the state that `send_cmd` leaves.
  pub send_cmd_exact :
      (c : Client S C F) (d : C) (y : InSync c.link.crypto.ctx_e d)
      → IsMessage c.os
      → length c.link.crypto.auth_key ≡ hmac_len
      → c.link.crypto.sequence_number_o + 2 < u32_mod
      → (e' : C) × (s' : S) × (Server.send_cmd os lib files c
          ≡ ok tt (record c { link = after_send c.link e' s'; os = [] }))
        × Sent c.link d y (after_send c.link e' s') (c.os ∷ [])
  unfolding Server.send_cmd
  send_cmd_exact c d y m k r =
      let (x, e', d', enc, dec, same, y') = sound.update_sync c.link.crypto.ctx_e d c.os y in
      let nz : ((c.link.crypto.sequence_number_o + 2) % u32_mod == 0) ≡ false = ground arith in
      let (s', q, o, i) =
        send_frame os net lib sound c.link c.os x e' m.0 m.1 k enc same (omega arith) in
      (
        e',
        s',
        rw (lt→ltb _ _ m.0, q, nz) refl,
        record {
          peer = d';
          sync = y';
          carries = λ more. rw (mod-eq_of_lt r, o) (append_assoc (outbox c.link.sock) _ _);
          ended = λ more. refl;
          receiver = (refl, refl, refl);
          messages = (m, tt);
          counted = mod-eq_of_lt r;
          keyed = refl;
          unread = i;
        },
      )

  -- What is written, if it is a message, goes out as one frame, and the stream is empty again.
  pub send_cmd_lem :
      (c : Client S C F) (d : C) (y : InSync c.link.crypto.ctx_e d)
      → IsMessage c.os
      → length c.link.crypto.auth_key ≡ hmac_len
      → c.link.crypto.sequence_number_o + 2 < u32_mod
      → (c' : Client S C F) × (Server.send_cmd os lib files c ≡ ok tt c')
        × Sent c.link d y c'.link (c.os ∷ [])
        × (c'.os ≡ [])
        × (c'.fs ≡ c.fs)
  send_cmd_lem c d y m k r =
      let (e', s', q, sent) = send_cmd_exact c d y m k r in
      (record c { link = after_send c.link e' s'; os = [] }, q, sent, refl, refl)

  -- What does not fit a buffer runs over the array of `Crypto::send`.
  pub send_cmd_overrun :
      (c : Client S C F) (d : C)
      → InSync c.link.crypto.ctx_e d
      → buffer_size < length c.os
      → Server.send_cmd os lib files c ≡ fault
  unfolding Server.send_cmd
  send_cmd_overrun c d y h =
      let (x, e', d', enc, dec, same, y') = sound.update_sync c.link.crypto.ctx_e d c.os y in
      rw (lt→ltb 0 (length c.os) (omega arith), send_overrun os lib c.os x e' c.link enc h) refl
