-- ===== src/ClientMain/Main.antt =====
-- `main` of src/client/main.cpp.
use cybersec_proj.Base.{
  Bytes, codes, List, [], ◌∷◌, Option, none, M, ◌>>=◌, ◌>>◌, return, zoom, defined,
}
use cybersec_proj.Base.Int.{ℤ}
use cybersec_proj.Exception.{Ex, ex, ex_network}
use cybersec_proj.Text.{from_text}
use cybersec_proj.Openssl.{Openssl}
use cybersec_proj.Connection.{Network, open_connection}
use cybersec_proj.Crypto
use cybersec_proj.Crypto.{initial_statics}
use cybersec_proj.Certificate.{Pem}
use cybersec_proj.CertManager
use cybersec_proj.CertManager.{CertManager, Trust}
use cybersec_proj.Handshake.{Party, Keys, Libs}
use cybersec_proj.Handshake.Client as ClientHandshake
use cybersec_proj.Execute.{handled}
use cybersec_proj.Listener.{to_uint16}
use cybersec_proj.ClientMain.Program
use cybersec_proj.ClientMain.Program.{Program, Local}

-- What `main` works on before it has a connection: the random source, the files and the output.
pub record Desk (G F : Type 0) : Type 0 where
  pub rng : G
  pub fs : F
  pub out : Bytes

-- The same with the connection.
pub record Station (S G F : Type 0) : Type 0 where
  pub sock : S
  pub desk : Desk G F

module _ {S G C K P R T F : Type 0} (libs : Libs S G K P) (lib : Openssl C) (local : Local F)
    (network : Network S) (atoi : Bytes → ℤ) (trust : Trust K R T) (certs : Pem K) (crls : Pem R)
    (keys : Pem P) where
  abbrev pub on_party : {A : Type 0} → M (Party S G) A → M (Station S G F) A
  on_party =
      zoom (λ h. record { sock = h.sock; rng = h.desk.rng })
        (λ p h. record { sock = p.sock; desk = record (h.desk) { rng = p.rng } })

  -- The globals once `crypto` is set. The static variables of `Crypto::recv` are as the program has
  -- them at its start, since it has one session.
  abbrev pub program_of : Keys → Station S G F → Program S C F
  program_of ks h = record {
    link = record {
      sock = h.sock;
      crypto = Crypto.init lib ks.session_key ks.auth_key ks.iv;
      statics = initial_statics;
    };
    is = from_text [];
    fs = h.desk.fs;
    out = h.desk.out;
  }

  abbrev pub on_program : {A : Type 0} → Keys → M (Program S C F) A → M (Station S G F) A
  on_program ks =
      zoom (program_of ks)
        (λ p h. record { sock = p.link.sock; desk = record (h.desk) { fs = p.fs; out = p.out } })

  -- `main` from the handshake on, over the lines of the input.
  unfoldable pub converse : CertManager K P → List Bytes → M (Station S G F) (Unit {0})
  converse cm input = do
    ks ← on_party (ClientHandshake.handshake libs cm)
    defined (Crypto.can_init ks.session_key ks.iv)
    on_program ks (Program.main_loop libs.os lib local input)

  -- The body of the `try`, for the three arguments that are used.
  unfoldable pub body : Bytes → Bytes → Bytes → List Bytes → M (Desk G F) (Unit {0})
  body sv_addr sv_port username input = do
    cm ← CertManager.init trust certs crls keys username (codes "server" ∷ [])
    sock ← open_connection network sv_addr (to_uint16 (atoi sv_port))
    zoom (λ d. record { sock = sock; desk = d }) (λ h d. h.desk) (converse cm input)

  abbrev pub main_clauses : List Ex
  main_clauses = ex_network ∷ ex ∷ []

  -- `main` on its arguments without the name of the program: with fewer than three it only tells how it
  -- is used.
  unfoldable pub main : List Bytes → List Bytes → M (Desk G F) (Option Ex)
  main [] input = return none
  main (sv_addr ∷ []) input = return none
  main (sv_addr ∷ sv_port ∷ []) input = return none
  main (sv_addr ∷ sv_port ∷ username ∷ more) input =
      λ d. handled main_clauses (body sv_addr sv_port username input d)
