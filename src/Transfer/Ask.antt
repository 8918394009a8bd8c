-- ===== src/Transfer/Ask.antt =====
-- The client sends a command and reads the reply to it.
use cybersec_proj.Base.{
  ◌+◌, ◌*◌, ◌%◌, ◌<◌, ◌≡◌, ◌∙◌, refl, sym, ap, false, Bytes, List, [], ◌∷◌, ◌++◌, append-nil, arith,
  length, ok, ◌==◌, ◌>>◌, M, Outcome, bind, bind_assoc,
}
use native.Mathlib.Nat.{mod-eq_of_lt}
use cybersec_proj.Protocol.{hmac_len, buffer_size}
use cybersec_proj.Word.{u32_mod}
use cybersec_proj.Openssl.{Openssl, IsSound}
use cybersec_proj.Connection.{Socket}
use cybersec_proj.Connection.Stream.{Stream}
use cybersec_proj.Crypto.{Link}
use cybersec_proj.Crypto.Pending.{IsValid, pending}
use cybersec_proj.Crypto.Wire.{send_frame, after_send}
use cybersec_proj.Crypto.Channel.{mark_after, IsMessage, All, concat, wire, Ready, plaintext}
use cybersec_proj.Crypto.Marks.{Stands, Stands-kept}
use cybersec_proj.Crypto.UpTo.{UpTo, before}
use cybersec_proj.Text.{from_text}
use cybersec_proj.ClientMain.Program
use cybersec_proj.ClientMain.Program.{Program, Local}
use cybersec_proj.ClientMain.Response.{IsReply, recv_response_lem}

module _ {S C F : Type 0} (os : Socket S) (net : Stream os) (lib : Openssl C)
    {InSync : C → C → Type 0} (sound : IsSound lib InSync) (local : Local F) where
  open net use {inbox, outbox}

  -- What the client's link is once a command is sent and the reply is read: `ds` are the messages of the
  -- server, and `rest` is what it sends after the reply.
  pub record Asked (p : Program S C F) (d peer : C) (y : InSync p.link.crypto.ctx_e d)
      (z : InSync peer p.link.crypto.ctx_d) (line text rest : Bytes) (ds : List Bytes)
      : Type 0 where
    pub link : Link S C
    pub left : List Bytes
    pub runs :
        (Program.send_cmd os lib local line >> Program.receive_response os lib local) p
        ≡ ok tt (record p { link = link; is = from_text text })
    pub unread : plaintext os net lib sound link left ≡ rest
    pub ready :
        Ready os net lib sound
          (mark_after sound peer p.link.crypto.ctx_d z p.link.crypto.sequence_number_i ds)
          link
          left
    pub sends :
        outbox link.sock
        ≡ wire sound p.link.crypto.auth_key p.link.crypto.ctx_e d y p.link.crypto.sequence_number_o
            (line ∷ [])
    pub stands :
        Stands
          (mark_after sound p.link.crypto.ctx_e d y p.link.crypto.sequence_number_o (line ∷ []))
          link
    pub keyed : link.crypto.auth_key ≡ p.link.crypto.auth_key
    pub last : (m : Bytes) (xs : List Bytes) → ds ≡ xs ++ (m ∷ []) → UpTo m link left

  pub client_asks :
      (p : Program S C F) (d peer : C) (y : InSync p.link.crypto.ctx_e d)
      (z : InSync peer p.link.crypto.ctx_d) (line text rest : Bytes) (ds : List Bytes)
      → IsMessage line
      → length p.link.crypto.auth_key ≡ hmac_len
      → p.link.crypto.sequence_number_o + 2 < u32_mod
      → p.link.crypto.sequence_number_i + 2 * length ds < u32_mod
      → IsValid p.link.statics
      → p.link.statics.remaining ≡ 0
      → outbox p.link.sock ≡ []
      → inbox p.link.sock
        ≡ wire sound p.link.crypto.auth_key peer p.link.crypto.ctx_d z
            p.link.crypto.sequence_number_i ds
      → All IsMessage ds
      → concat ds ≡ text ++ rest
      → IsReply 0 text
      → length text < buffer_size
      → Asked p d peer y z line text rest ds
  unfolding Program.send_cmd Program.receive_response
  client_asks p d peer y z line text rest ds m hk room_o room_i valid none_left silent arrived
        messages whole reply short =
      let (x, e1, d1, enc, dec, same, y1) = sound.update_sync p.link.crypto.ctx_e d line y in
      let nz : ((p.link.crypto.sequence_number_o + 2) % u32_mod == 0) ≡ false = ground arith in
      let (s1, q1, o1, i1) =
        send_frame os net lib sound p.link line x e1 m.0 m.1 hk enc same (omega arith) in
      let l1 : Link S C = after_send p.link e1 s1 in
      let ready : Ready os net lib sound
          (mark_after sound peer p.link.crypto.ctx_d z p.link.crypto.sequence_number_i ds) l1 ds =
        record {
          peer = peer;
          sync = z;
          arrives = i1 ∙ arrived;
          messages = messages;
          ends = refl;
          counts = refl;
          room = room_i;
          keyed = hk;
          valid = valid;
        } in
      let all : plaintext os net lib sound l1 ds ≡ text ++ rest =
        ap (λ (bs : Bytes). bs ++ concat ds) {x = pending p.link.statics} {y = []}
          (rw none_left refl)
        ∙ whole in
      let (l2, left, q2, unread, ready', quiet, sender, upto) =
        recv_response_lem os net lib sound text rest l1 ds ready reply all short in
      record {
        link = l2;
        left = left;
        runs = rw (q1, nz, q2) refl;
        unread = unread;
        ready = ready';
        sends = quiet ∙ o1 ∙ rw silent (sym (append-nil _));
        stands =
            Stands-kept {l = l1} (record { cipher = refl; number = mod-eq_of_lt room_o }) sender;
        keyed = sender.2;
        last = λ m xs e. upto m (before xs e);
      }

  -- What comes after the reply in a command.
  pub Asked-then :
      {p : Program S C F} {d peer : C} {y : InSync p.link.crypto.ctx_e d}
      {z : InSync peer p.link.crypto.ctx_d} {line text rest : Bytes} {ds : List Bytes} {A : Type 0}
      (a : Asked p d peer y z line text rest ds) (k : M (Program S C F) A)
      {o : Outcome (Program S C F) A}
      → k (record p { link = a.link; is = from_text text }) ≡ o
      → bind
          (Program.send_cmd os lib local line p)
          (λ _ s. bind (Program.receive_response os lib local s) (λ _ s'. k s'))
        ≡ o
  Asked-then {p = p} {line = line} a k h =
      bind_assoc (Program.send_cmd os lib local line p)
        (λ _ s. Program.receive_response os lib local s) (λ _ s. k s)
      ∙ ap (λ (r : Outcome (Program S C F) (Unit {0})). bind r (λ _ s. k s)) (a.runs)
      ∙ h
