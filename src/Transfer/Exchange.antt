-- ===== src/Transfer/Exchange.antt =====
-- One command of the client and the round of the server that answers it.
pub mod Meet
pub mod Get
pub mod Put
pub mod Tell
pub mod Status
pub mod List
use cybersec_proj.Base.{ℕ, ◌≡◌, Bool, [], Bytes, ok, M}
use cybersec_proj.Openssl.{Openssl}
use cybersec_proj.Connection.{Socket}
use cybersec_proj.Connection.Stream.{Stream}
use cybersec_proj.ClientMain.Program.{Program}
use cybersec_proj.Server
use cybersec_proj.Server.{FileSystem, Client}
use cybersec_proj.Transfer.Joint.{InSession, with_mail, server_mail}

-- A connection on which bytes arrive: it has sent nothing yet.
pub record Delivers {S : Type 0} {os : Socket S} (net : Stream os) (deliver : Bytes → S → S)
    : Type 0 where
  pub arrives : (bs : Bytes) (s : S) → net.inbox (deliver bs s) ≡ bs
  pub fresh : (bs : Bytes) (s : S) → net.outbox (deliver bs s) ≡ []

module _ {S C F : Type 0} (os : Socket S) (net : Stream os) (lib : Openssl C)
    (InSync : C → C → Type 0) (files : FileSystem F) (deliver : Bytes → S → S) where
  -- The client runs a command and the server one round of `execute`; `more` tells whether its loop goes
  -- on. Each, when the bytes of the other
  -- arrive, sends its own bytes and ends normally; afterwards both stand in one session again.
  pub record Exchange (run : M (Program S C F) (Unit {0})) (more : Bool) (p : Program S C F)
      (c : Client S C F) (p' : Program S C F) (c' : Client S C F) : Type 0 where
    pub up : Bytes
    pub down : Bytes
    pub client : run (with_mail deliver p down) ≡ ok tt p'
    pub server : Server.round os lib files (server_mail deliver c up) ≡ ok more c'
    pub client_sends : net.outbox p'.link.sock ≡ up
    pub server_sends : net.outbox c'.link.sock ≡ down
    pub session : InSession InSync p' c'
