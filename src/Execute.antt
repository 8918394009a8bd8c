-- ===== src/Execute.antt =====
-- `Client::execute` of src/server/client.cpp, the life of one session, and its catch clauses.
pub mod Handlers
pub mod Laws
use cybersec_proj.Base.{
  ℕ, Bytes, defined, List, [], ◌∷◌, Option, none, some, Outcome, ok, throws, fault, M, ◌>>=◌, ◌>>◌,
  return, zoom,
}
use cybersec_proj.Exception.{
  Ex, ex, ex_network, ex_certificate, ex_protocol, bad_alloc, first_handler,
}
use cybersec_proj.Text.{from_text}
use cybersec_proj.Openssl.{Openssl}
use cybersec_proj.Crypto
use cybersec_proj.Crypto.{Statics}
use cybersec_proj.CertManager.{CertManager}
use cybersec_proj.Handshake.{Party, Keys, Libs}
use cybersec_proj.Handshake.Server as ServerHandshake
use cybersec_proj.Server
use cybersec_proj.Server.{FileSystem, Client}

-- What a session works on: its connection, the random source, the static variables of `Crypto::recv`
-- and the files.
pub record Host (S G F : Type 0) : Type 0 where
  pub sock : S
  pub rng : G
  pub statics : Statics
  pub fs : F

-- `try { ... } catch ...`: the class of the clause that ran, if one did. What no clause takes goes on.
abbrev pub handled : {S : Type 0} → List Ex → Outcome S (Unit {0}) → Outcome S (Option Ex)
handled clauses (ok _ s) = ok none s
handled clauses (throws e s) = elim (first_handler clauses e) [
  | none ↦ throws e s
  | some c ↦ ok (some c) s
]
handled clauses fault = fault

-- The catch clauses of `execute`, in order.
abbrev pub execute_clauses : List Ex
execute_clauses = ex_network ∷ ex_certificate ∷ ex_protocol ∷ ex ∷ bad_alloc ∷ []

module _ {S G C K P F : Type 0} (libs : Libs S G K P) (lib : Openssl C) (cm : CertManager K P)
    (files : FileSystem F) where
  abbrev pub on_party : {A : Type 0} → M (Party S G) A → M (Host S G F) A
  on_party =
      zoom (λ h. record { sock = h.sock; rng = h.rng })
        (λ p h. record h { sock = p.sock; rng = p.rng })

  -- The object once `crypto` is set: its streams are new.
  abbrev pub client_of : Keys → Host S G F → Client S C F
  client_of keys h = record {
    link = record {
      sock = h.sock;
      crypto = Crypto.init lib keys.session_key keys.auth_key keys.iv;
      statics = h.statics;
    };
    is = from_text [];
    os = [];
    fs = h.fs;
  }

  abbrev pub on_client : {A : Type 0} → Keys → M (Client S C F) A → M (Host S G F) A
  on_client keys =
      zoom (client_of keys)
        (λ c h. record h { sock = c.link.sock; statics = c.link.statics; fs = c.fs })

  -- The body of the `try`, for at most `rounds` commands.
  unfoldable pub session : ℕ → M (Host S G F) (Unit {0})
  session rounds = do
    keys ← on_party (ServerHandshake.handshake libs cm)
    defined (Crypto.can_init keys.session_key keys.iv)
    on_client keys (Server.command_loop libs.os lib files rounds)

  unfoldable pub execute : ℕ → M (Host S G F) (Option Ex)
  execute rounds h = handled execute_clauses (session rounds h)
