-- ===== src/Transfer/Joint.antt =====
-- Both programs in one session, and what one sends on its way to the other.
use cybersec_proj.Base.{◌≡◌, ◌∙◌, sym, Bytes, [], length}
use cybersec_proj.Protocol.{hmac_len}
use cybersec_proj.Crypto.Channel.{Mark}
use cybersec_proj.Crypto.Marks.{Stands, Drained}
use cybersec_proj.Crypto.Pending.{IsValid}
use cybersec_proj.ClientMain.Program.{Program}
use cybersec_proj.Server.{Client}

module _ {S C F : Type 0} (deliver : Bytes → S → S) where
  -- Program and server with what the other end sent on its way to them.
  abbrev pub with_mail : Program S C F → Bytes → Program S C F
  with_mail p bytes = record p { link = record (p.link) { sock = deliver bytes (p.link.sock) } }

  abbrev pub server_mail : Client S C F → Bytes → Client S C F
  server_mail c bytes = record c { link = record (c.link) { sock = deliver bytes (c.link.sock) } }

module _ {S C F : Type 0} (InSync : C → C → Type 0) where
  -- Both ends stand in one session: keys, ciphers and numbers agree in both directions, and neither has
  -- anything unread, nor the server anything written and not sent.
  pub record InSession (p : Program S C F) (c : Client S C F) : Type 0 where
    pub up : InSync p.link.crypto.ctx_e c.link.crypto.ctx_d
    pub down : InSync c.link.crypto.ctx_e p.link.crypto.ctx_d
    pub key_size : length p.link.crypto.auth_key ≡ hmac_len
    pub same_key : c.link.crypto.auth_key ≡ p.link.crypto.auth_key
    pub same_up : c.link.crypto.sequence_number_i ≡ p.link.crypto.sequence_number_o
    pub same_down : p.link.crypto.sequence_number_i ≡ c.link.crypto.sequence_number_o
    pub client_valid : IsValid p.link.statics
    pub client_read : p.link.statics.remaining ≡ 0
    pub server_valid : IsValid c.link.statics
    pub server_read : c.link.statics.remaining ≡ 0
    pub server_written : c.os ≡ []

  -- Both ends stand at the marks that they have made for each other.
  pub joined :
      {up down : Mark C} (p : Program S C F) (c : Client S C F)
      → Stands up p.link
      → Drained InSync up c.link
      → Stands down c.link
      → Drained InSync down p.link
      → length p.link.crypto.auth_key ≡ hmac_len
      → c.link.crypto.auth_key ≡ p.link.crypto.auth_key
      → c.os ≡ []
      → InSession p c
  joined p c su du sd dd size key empty = record {
    up = rw (su.cipher) (du.in_step);
    down = rw (sd.cipher) (dd.in_step);
    key_size = size;
    same_key = key;
    same_up = du.number ∙ sym (su.number);
    same_down = dd.number ∙ sym (sd.number);
    client_valid = dd.valid;
    client_read = dd.read;
    server_valid = du.valid;
    server_read = du.read;
    server_written = empty;
  }
