-- ===== src/Crypto/Marks.antt =====
-- Where both ends of a channel stand after a row of messages.
use cybersec_proj.Base.{ℕ, ◌≡◌, ◌∙◌, ap, Bytes, List, [], ◌∷◌, ◌++◌, arith, length, length-append}
use cybersec_proj.Openssl.{Openssl, IsSound}
use cybersec_proj.Connection.{Socket}
use cybersec_proj.Connection.Stream.{Stream}
use cybersec_proj.Crypto.{Link}
use cybersec_proj.Crypto.Channel.{Mark, SameSender, SameReceiver, Ready, concat, plaintext, wire}
use cybersec_proj.Crypto.Pending.{pending, IsValid, length-pending}

-- The sending half of a link stands at a mark.
pub record Stands {S C : Type 0} (mark : Mark C) (l : Link S C) : Type 0 where
  pub cipher : l.crypto.ctx_e ≡ mark.cipher
  pub number : l.crypto.sequence_number_o ≡ mark.number

-- The receiving half is in step with a sender at a mark, and has nothing unread.
pub record Drained {S C : Type 0} (InSync : C → C → Type 0) (mark : Mark C) (l : Link S C)
    : Type 0 where
  pub in_step : InSync mark.cipher l.crypto.ctx_d
  pub number : l.crypto.sequence_number_i ≡ mark.number
  pub valid : IsValid l.statics
  pub read : l.statics.remaining ≡ 0

-- Work on one half of a link leaves the other.
pub Stands-kept :
    {S C : Type 0} {mark : Mark C} {l l' : Link S C}
    → Stands mark l
    → SameSender l l'
    → Stands mark l'
Stands-kept s w = record { cipher = w.0 ∙ s.cipher; number = w.1 ∙ s.number }

pub Drained-kept :
    {S C : Type 0} {InSync : C → C → Type 0} {mark : Mark C} {l l' : Link S C}
    → Drained InSync mark l
    → SameReceiver l l'
    → Drained InSync mark l'
Drained-kept d w = record {
  in_step = rw (w.0) (d.in_step);
  number = w.1 ∙ d.number;
  valid = rw (w.2) (d.valid);
  read = rw (w.2) (d.read);
}

module _ {S C : Type 0} (os : Socket S) (net : Stream os) (lib : Openssl C)
    {InSync : C → C → Type 0} (sound : IsSound lib InSync) where
  -- Once all the plaintext is read, the receiver is in step with the sender.
  pub Ready-Drained :
      {mark : Mark C} (l : Link S C) (ps : List Bytes)
      → Ready os net lib sound mark l ps
      → length (plaintext os net lib sound l ps) ≡ 0
      → Drained InSync mark l
  Ready-Drained l [] h e = record {
    in_step = rw (← h.ends) (h.sync);
    number = omega (arith, h.counts);
    valid = h.valid;
    read = omega (arith, length-pending l.statics h.valid, length-append (pending l.statics) [], e);
  }
  Ready-Drained l (p ∷ ps) h e = absurd (
      omega (
        arith,
        h.messages.0.0,
        length-append (pending l.statics) (p ++ concat ps),
        length-append p (concat ps),
        e,
      ))

module _ {C : Type 0} {lib : Openssl C} {InSync : C → C → Type 0} (sound : IsSound lib InSync) where
  pub wire_moved :
      (e d : C) (y : InSync e d) (ps : List Bytes) {key key' : Bytes} {seq seq' : ℕ}
      → key ≡ key'
      → seq ≡ seq'
      → wire sound key e d y seq ps ≡ wire sound key' e d y seq' ps
  wire_moved e d y ps {key = key} {key' = key'} {seq = seq} {seq' = seq'} same_key same_seq =
      ap (λ (k : Bytes). wire sound k e d y seq ps) same_key
      ∙ ap (λ (n : ℕ). wire sound key' e d y n ps) same_seq
