-- ===== src/Transfer/Exchange/Meet.antt =====
-- The server of a session where the client's messages arrive.
use cybersec_proj.Base.{
  ◌≡◌, ◌∙◌, ◌+◌, ◌*◌, ◌<◌, refl, sym, ap, append-nil, [], Bytes, List, arith, length,
}
use cybersec_proj.Crypto.{Link}
use cybersec_proj.Word.{u32_mod}
use cybersec_proj.Openssl.{Openssl, IsSound}
use cybersec_proj.Connection.{Socket}
use cybersec_proj.Connection.Stream.{Stream}
use cybersec_proj.Crypto.Channel.{last_cipher, mark_after, IsMessage, All, wire, Ready}
use cybersec_proj.Crypto.Marks.{wire_moved}
use cybersec_proj.ClientMain.Program.{Program}
use cybersec_proj.Server.{Client, FileSystem}
use cybersec_proj.Server.Reply.{Sent}
use cybersec_proj.Transfer.Joint.{InSession, server_mail}
use cybersec_proj.Transfer.Exchange.{Delivers}

module _ {S C F : Type 0} (os : Socket S) (net : Stream os) (lib : Openssl C)
    {InSync : C → C → Type 0} (sound : IsSound lib InSync) (deliver : Bytes → S → S)
    (delivers : Delivers net deliver) where
  -- What the client puts on the wire for messages, and where it stands after them.
  abbrev pub up_wire :
      (p : Program S C F) (c : Client S C F) → InSession InSync p c → List Bytes → Bytes
  up_wire p c k ms =
      wire sound p.link.crypto.auth_key p.link.crypto.ctx_e c.link.crypto.ctx_d k.up
        p.link.crypto.sequence_number_o ms

  pub server_ready :
      (p : Program S C F) (c : Client S C F) (k : InSession InSync p c) (ms : List Bytes)
      → All IsMessage ms
      → p.link.crypto.sequence_number_o + 2 * length ms < u32_mod
      → Ready os net lib sound
          (mark_after sound p.link.crypto.ctx_e c.link.crypto.ctx_d k.up
            p.link.crypto.sequence_number_o ms)
          (server_mail deliver c (up_wire p c k ms)).link
          ms
  server_ready p c k ms m room = record {
    peer = p.link.crypto.ctx_e;
    sync = k.up;
    arrives =
        delivers.arrives _ _
        ∙ wire_moved sound p.link.crypto.ctx_e c.link.crypto.ctx_d k.up ms (sym k.same_key)
            (sym k.same_up);
    messages = m;
    ends = refl;
    counts = omega (arith, k.same_up);
    room = omega (arith, room, k.same_up);
    keyed = rw (k.same_key) (k.key_size);
    valid = k.server_valid;
  }

module _ {S C F : Type 0} (os : Socket S) (net : Stream os) (lib : Openssl C)
    {InSync : C → C → Type 0} (sound : IsSound lib InSync) (files : FileSystem F) where
  open net use {inbox, outbox}

  -- What is on the wire after messages were sent where nothing was, and the cipher after them.
  pub Sent-wire :
      (l l' : Link S C) (d : C) (y : InSync l.crypto.ctx_e d) (ms : List Bytes)
      → Sent os net lib sound files l d y l' ms
      → outbox l.sock ≡ []
      → outbox l'.sock
        ≡ wire sound l.crypto.auth_key l.crypto.ctx_e d y l.crypto.sequence_number_o ms
  Sent-wire l l' d y ms s silent =
      sym (append-nil (outbox l'.sock)) ∙ s.carries [] ∙ rw (silent, append-nil ms) refl

  pub Sent-cipher :
      (l l' : Link S C) (d : C) (y : InSync l.crypto.ctx_e d) (ms : List Bytes)
      → Sent os net lib sound files l d y l' ms
      → l'.crypto.ctx_e ≡ last_cipher sound l.crypto.ctx_e d y ms
  Sent-cipher l l' d y ms s =
      s.ended [] ∙ ap (λ (ps : List Bytes). last_cipher sound l.crypto.ctx_e d y ps) (append-nil ms)
