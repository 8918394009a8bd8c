-- ===== src/ClientMain/Ending.antt =====
-- What `main` of the client leaves in the local files, however it ends.
use cybersec_proj.Base.{
  ℕ, inl, inr, Bytes, codes, List, [], ◌∷◌, Outcome, Ends, Ends-bind, Ends-defined, defined,
  Ends-put_back, Ends-put_back_inv, Bool-cases, Option-cases,
}
use cybersec_proj.Base.Int.{ℤ}
use cybersec_proj.Openssl.{Openssl}
use cybersec_proj.Connection.{Network, open_connection}
use cybersec_proj.Certificate.{Pem}
use cybersec_proj.CertManager.{CertManager, Trust}
use cybersec_proj.Handshake.{Libs}
use cybersec_proj.Handshake.Client as ClientHandshake
use cybersec_proj.Execute.Handlers.{handled-Ends}
use cybersec_proj.Listener.{to_uint16}
use cybersec_proj.CertManager.Loading.{OkOrCert, init-OkOrCert}
use cybersec_proj.Crypto
use cybersec_proj.ClientMain.Program
use cybersec_proj.ClientMain.Program.{Local}
use cybersec_proj.ClientMain.Main
use cybersec_proj.ClientMain.Main.{Desk, Station}
use cybersec_proj.ClientMain.Confined.{Saved, Asked, here, main_loop-Kept}

module _ {S G C K P R T F : Type 0} (libs : Libs S G K P) (lib : Openssl C) (local : Local F)
    (network : Network S) (atoi : Bytes → ℤ) (trust : Trust K R T) (certs : Pem K) (crls : Pem R)
    (keys : Pem P) where
  open local use {files}

  abbrev Kept : List Bytes → F → Desk G F → Type 0
  Kept input f d = Saved files (Asked input) f d.fs

  converse-Kept :
      (cm : CertManager K P) (input : List Bytes) (f : F) (h : Station S G F)
      → Kept input f h.desk
      → Ends
          (λ h'. Kept input f h'.desk)
          (Main.converse libs lib local network atoi trust certs crls keys cm input h)
  unfolding Main.converse
  converse-Kept cm input f h kept =
      Ends-bind (λ h'. Kept input f h'.desk) _ _
        (Ends-put_back (λ h'. Kept input f h'.desk) _
          (ClientHandshake.handshake libs cm (record { sock = h.sock; rng = h.desk.rng }))
          (λ p. kept))
        (λ ks s k.
          let safe = Crypto.can_init ks.session_key ks.iv in
          Ends-bind (λ h'. Kept input f h'.desk) (defined safe s) _
            (Ends-defined (λ h'. Kept input f h'.desk) safe s k)
            (λ _ s' k'.
              Ends-put_back_inv (λ h'. Kept input f h'.desk) _
                (Program.main_loop libs.os lib local input
                  (Main.program_of libs lib local network atoi trust certs crls keys ks s'))
                (main_loop-Kept libs.os lib local (Asked input) f input _ (λ n a. a) k')))

  OkOrCert-Kept :
      {A : Type 0} (input : List Bytes) (d : Desk G F) (o : Outcome (Desk G F) A)
      → OkOrCert d o
      → Ends (Kept input d.fs) o
  OkOrCert-Kept input d o (inl (a, e)) = rw e here
  OkOrCert-Kept input d o (inr e) = rw e here

  open_connection-Kept :
      (a : Bytes) (port : ℕ) (input : List Bytes) (f : F) (d : Desk G F)
      → Kept input f d
      → Ends (Kept input f) (open_connection network a port d)
  unfolding open_connection
  open_connection-Kept a port input f d k = elim (Bool-cases (network.socket)) [
    | inr s ↦ rw s k
    | inl s ↦ elim (Option-cases (network.connect a port)) [
      | inl e ↦ rw (s, e) k
      | inr (sock, e) ↦ rw (s, e) k
    ]
  ]

  body-Kept :
      (a b u : Bytes) (input : List Bytes) (d : Desk G F)
      → Ends
          (Kept input d.fs)
          (Main.body libs lib local network atoi trust certs crls keys a b u input d)
  unfolding Main.body
  body-Kept a b u input d =
      let P = Kept input d.fs in
      Ends-bind P _ _
        (OkOrCert-Kept input d _ (init-OkOrCert trust certs crls keys u (codes "server" ∷ []) d))
        (λ cm s k.
          Ends-bind P _ _ (open_connection-Kept a (to_uint16 (atoi b)) input d.fs s k)
            (λ sock s' k'.
              Ends-put_back_inv P _ _
                (converse-Kept cm input d.fs (record { sock = sock; desk = s' }) k')))

  -- Whatever the server sends, and whether `main` of the client ends by a return or an exception, each
  -- local file that it empties or extends is CLIENT_ROOT and the second word of a line of the input.
  pub main_confined :
      (args input : List Bytes) (d : Desk G F)
      → Ends
          (λ d'. Saved files (Asked input) d.fs d'.fs)
          (Main.main libs lib local network atoi trust certs crls keys args input d)
  unfolding Main.main
  main_confined [] input d = here
  main_confined (a ∷ []) input d = here
  main_confined (a ∷ b ∷ []) input d = here
  main_confined (a ∷ b ∷ u ∷ more) input d =
      handled-Ends (Kept input d.fs)
        (Main.main_clauses libs lib local network atoi trust certs crls keys)
        (Main.body libs lib local network atoi trust certs crls keys a b u input d)
        (body-Kept a b u input d)
