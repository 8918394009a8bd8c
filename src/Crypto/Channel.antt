-- ===== src/Crypto/Channel.antt =====
-- The channel that two links make: `send` and `recv` carry a stream of plaintext.
use cybersec_proj.Base.{
  ℕ, ◌+◌, ◌*◌, ◌≤◌, ◌<◌, ◌≡◌, ◌∙◌, refl, sym, ap, Bytes, List, [], ◌∷◌, ◌++◌, append_assoc, arith,
  take, drop, length, length-append, length-take, length-drop, take_front, take-append-drop, ok,
  Bool-cases, inl, inr, ◌==◌, ==_iff, true, ◌⊎◌,
}
use native.Mathlib.Nat.{mod-eq_of_lt}
use cybersec_proj.Protocol.{buffer_size, hmac_len}
use cybersec_proj.Word.{u32_mod}
use cybersec_proj.Openssl.{Openssl, IsSound}
use cybersec_proj.Connection.{Socket}
use cybersec_proj.Connection.Stream.{Stream}
use cybersec_proj.Crypto
use cybersec_proj.Crypto.{Link, Statics}
use cybersec_proj.Crypto.Wire.{frame}
use cybersec_proj.Crypto.Receive.{feed-frame, after_feed}
use cybersec_proj.Crypto.Pending.{pending, IsValid, length-pending, copy_out_lem}

-- A message that `send` can carry: not empty, and no longer than a buffer.
abbrev pub IsMessage : Bytes → Type 0
IsMessage p = (0 < length p) × (length p ≤ buffer_size)

abbrev pub All : {A : Type 0} → (A → Type 0) → List A → Type 0
All P [] = Unit {0}
All P (x ∷ xs) = P x × All P xs

abbrev pub concat : List Bytes → Bytes
concat [] = []
concat (p ∷ ps) = p ++ concat ps

-- The bytes on the wire for a row of messages, from the state of the two ciphers and the sequence
-- number at its start.
module _ {C : Type 0} {lib : Openssl C} {InSync : C → C → Type 0} (sound : IsSound lib InSync)
    (key : Bytes) where
  abbrev pub wire : (e d : C) → InSync e d → ℕ → List Bytes → Bytes
  wire e d y seq [] = []
  wire e d y seq (p ∷ ps) =
      let (x, e', d', enc, dec, same, y') = sound.update_sync e d p y in
      frame sound key seq x ++ wire e' d' y' (seq + 2) ps

-- Where the sender of a row of messages stands after it: its cipher and its next number.
pub record Mark (C : Type 0) : Type 0 where
  pub cipher : C
  pub number : ℕ

module _ {C : Type 0} {lib : Openssl C} {InSync : C → C → Type 0} (sound : IsSound lib InSync) where
  abbrev pub last_cipher : (e d : C) → InSync e d → List Bytes → C
  last_cipher e d y [] = e
  last_cipher e d y (p ∷ ps) =
      let (x, e', d', enc, dec, same, y') = sound.update_sync e d p y in last_cipher e' d' y' ps

  abbrev pub mark_after : (e d : C) → InSync e d → ℕ → List Bytes → Mark C
  mark_after e d y seq ps = record { cipher = last_cipher e d y ps; number = seq + 2 * length ps }

-- The receiving half of `l'` is that of `l`.
abbrev pub SameReceiver : {S C : Type 0} → Link S C → Link S C → Type 0
SameReceiver l l' =
    (l'.crypto.ctx_d ≡ l.crypto.ctx_d)
    × (l'.crypto.sequence_number_i ≡ l.crypto.sequence_number_i)
    × (l'.statics ≡ l.statics)

-- The sending half of `l'` is that of `l`.
abbrev pub SameSender : {S C : Type 0} → Link S C → Link S C → Type 0
SameSender l l' =
    (l'.crypto.ctx_e ≡ l.crypto.ctx_e)
    × (l'.crypto.sequence_number_o ≡ l.crypto.sequence_number_o)
    × (l'.crypto.auth_key ≡ l.crypto.auth_key)

module _ {S C : Type 0} (os : Socket S) (net : Stream os) (lib : Openssl C)
    {InSync : C → C → Type 0} (sound : IsSound lib InSync) where
  open net use {inbox, outbox}

  -- The link stands where the messages `ps` are about to arrive, and nothing after them; their sender
  -- then stands at `mark`.
  pub record Ready (mark : Mark C) (l : Link S C) (ps : List Bytes) : Type 0 where
    pub peer : C
    pub sync : InSync peer l.crypto.ctx_d
    pub arrives :
        inbox l.sock
        ≡ wire sound l.crypto.auth_key peer l.crypto.ctx_d sync l.crypto.sequence_number_i ps
    pub messages : All IsMessage ps
    pub ends : last_cipher sound peer l.crypto.ctx_d sync ps ≡ mark.cipher
    pub counts : l.crypto.sequence_number_i + 2 * length ps ≡ mark.number
    pub room : l.crypto.sequence_number_i + 2 * length ps < u32_mod
    pub keyed : length l.crypto.auth_key ≡ hmac_len
    pub valid : IsValid l.statics

  -- All the plaintext that `recv` has not handed out yet.
  abbrev pub plaintext : Link S C → List Bytes → Bytes
  plaintext l ps = pending l.statics ++ concat ps

  pub feed-Ready :
      {mark : Mark C} (l : Link S C) (p : Bytes) (ps : List Bytes)
      → Ready mark l (p ∷ ps)
      → (l' : Link S C) × (Crypto.feed os lib l ≡ ok tt l')
        × Ready mark l' ps
        × (pending l'.statics ≡ p)
        × (outbox l'.sock ≡ outbox l.sock)
        × SameSender l l'
  feed-Ready l p ps h =
      let (x, e', d', enc, dec, same, y') = sound.update_sync h.peer l.crypto.ctx_d p h.sync in
      let n : l.crypto.sequence_number_i + 2 < u32_mod = omega (arith, h.room) in
      let (s', r, i, o) =
        feed-frame os net lib sound l p x d' _ h.messages.0.0 h.messages.0.1 h.keyed dec same
          (omega arith) h.arrives in
      (
        after_feed l p d' s',
        r ∙ rw (mod-eq_of_lt n) (ground arith),
        record {
          peer = e';
          sync = y';
          arrives = rw (mod-eq_of_lt n) i;
          messages = h.messages.1;
          ends = h.ends;
          counts = rw (mod-eq_of_lt n) (omega (arith, h.counts));
          room = rw (mod-eq_of_lt n) (omega (arith, h.room));
          keyed = h.keyed;
          valid = record {
            within = omega (arith, h.messages.0.1);
            filled = omega (
              arith,
              length-append p (drop (length p) l.statics.payload),
              length-drop (length p) l.statics.payload,
              h.valid.filled,
              h.messages.0.1,
            );
          };
        },
        take_front (length p) p _ refl,
        o,
        (refl, refl, refl),
      )

  pub copy-Ready :
      {mark : Mark C} (l : Link S C) (ps : List Bytes) (n : ℕ)
      → Ready mark l ps
      → (l' : Link S C) × (Crypto.copy_out n l ≡ ok (take n (pending l.statics)) l')
        × Ready mark l' ps
        × (pending l'.statics ≡ drop n (pending l.statics))
        × (outbox l'.sock ≡ outbox l.sock)
        × SameSender l l'
  copy-Ready l ps n h =
      let (st', r, e, v) = copy_out_lem l n h.valid in
      (
        record l { statics = st' },
        r,
        record {
          peer = h.peer;
          sync = h.sync;
          arrives = h.arrives;
          messages = h.messages;
          ends = h.ends;
          counts = h.counts;
          room = h.room;
          keyed = h.keyed;
          valid = v;
        },
        e,
        refl,
        (refl, refl, refl),
      )

  -- At least one byte was taken: of the payload that was left, or of the next message.
  abbrev pub Moved : Link S C → List Bytes → Link S C → List Bytes → Type 0
  Moved l ps l' ps' =
      ((ps' ≡ ps) × (length (pending l'.statics) < length (pending l.statics)))
      ⊎ ((p : Bytes) × (ps ≡ p ∷ ps') × (length (pending l'.statics) < length p))

  -- What a call of `recv` that asks for `n` bytes does to the stream.
  pub record Delivered (mark : Mark C) (l : Link S C) (ps : List Bytes) (n : ℕ) : Type 0 where
    pub bytes : Bytes
    pub after : Link S C
    pub left : List Bytes
    pub returns : Crypto.recv os lib n l ≡ ok bytes after
    pub ready : Ready mark after left
    pub split : plaintext l ps ≡ bytes ++ plaintext after left
    pub some_bytes : 0 < length bytes
    pub at_most : length bytes ≤ n
    pub silent : outbox after.sock ≡ outbox l.sock
    pub sender : SameSender l after
    pub moved : Moved l ps after left

  -- A call that comes down to copying from the payload of `l`.
  copied :
      {mark : Mark C} (l0 l : Link S C) (ps0 ps : List Bytes) (n : ℕ)
      → Ready mark l ps
      → 0 < n
      → 0 < length (pending l.statics)
      → plaintext l0 ps0 ≡ plaintext l ps
      → Crypto.recv os lib n l0 ≡ Crypto.copy_out n l
      → outbox l.sock ≡ outbox l0.sock
      → SameSender l0 l
      → ((l' : Link S C)
          → length (pending l'.statics) < length (pending l.statics)
          → Moved l0 ps0 l' ps)
      → Delivered mark l0 ps0 n
  copied l0 l ps0 ps n h k m e r q w v =
      let (l', r', h', p, o, w') = copy-Ready l ps n h in
      record {
        bytes = take n (pending l.statics);
        after = l';
        left = ps;
        returns = r ∙ r';
        ready = h';
        split =
            e
            ∙ ap (λ (bs : Bytes). bs ++ concat ps) (sym (take-append-drop n (pending l.statics)))
            ∙ append_assoc (take n (pending l.statics)) (drop n (pending l.statics)) (concat ps)
            ∙ ap (λ (bs : Bytes). take n (pending l.statics) ++ (bs ++ concat ps)) (sym p);
        some_bytes = omega (arith, length-take n (pending l.statics));
        at_most = omega (arith, length-take n (pending l.statics));
        silent = o ∙ q;
        sender = (w'.0 ∙ w.0, w'.1 ∙ w.1, w'.2 ∙ w.2);
        moved = v l' (omega (arith, ap (length {A = ℕ}) p, length-drop n (pending l.statics)));
      }

  -- With nothing left of the last payload, `recv` takes a message in first.
  fed :
      {mark : Mark C} (l : Link S C) (ps : List Bytes) (n : ℕ)
      → Ready mark l ps
      → 0 < n
      → 0 < length (concat ps)
      → (l.statics.remaining == 0) ≡ true
      → Delivered mark l ps n
  unfolding Crypto.recv
  fed l [] n h k m e = absurd (omega arith)
  fed l (p ∷ ps) n h k m e =
      let (l', r, h', q, o, w) = feed-Ready l p ps h in
      copied l l' (p ∷ ps) ps n h' k (rw q h.messages.0.0)
        (rw ((==_iff _ _).0 e) (ap (λ (bs : Bytes). bs ++ concat ps) (sym q))) (rw (e, r)) o w
        (λ l'' less. inr (p, refl, omega (arith, less, ap (length {A = ℕ}) q)))

  -- As long as plaintext is left, `recv` returns at least one byte of its front and at most what is
  -- asked for, and leaves the rest for later calls.
  pub recv-Delivered :
      {mark : Mark C} (l : Link S C) (ps : List Bytes) (n : ℕ)
      → Ready mark l ps
      → 0 < n
      → 0 < length (plaintext l ps)
      → Delivered mark l ps n
  unfolding Crypto.recv
  recv-Delivered l ps n h k m = elim (Bool-cases (l.statics.remaining == 0)) [
    | inl e ↦
        fed l ps n h k
          (omega (
            arith,
            length-append (pending l.statics) (concat ps),
            length-pending l.statics h.valid,
            (==_iff _ _).0 e,
          ))
          e
    | inr e ↦
        copied l l ps ps n h k (ground (arith, length-pending l.statics h.valid)) refl (rw e) refl
          (refl, refl, refl) (λ l'' less. inl (refl, less))
  ]
