-- ===== src/Execute/Laws.antt =====
-- What a session does to the files, however it ends.
use cybersec_proj.Base.{ℕ, Ends, Ends-bind, Ends-defined, defined, Ends-put_back, Ends-put_back_inv}
use cybersec_proj.Openssl.{Openssl}
use cybersec_proj.CertManager.{CertManager}
use cybersec_proj.Handshake.{Libs}
use cybersec_proj.Handshake.Server as ServerHandshake
use cybersec_proj.Crypto
use cybersec_proj.Server
use cybersec_proj.Server.{FileSystem, Client}
use cybersec_proj.Server.Confined.{Reach, here, command_loop-Confined}
use cybersec_proj.Execute
use cybersec_proj.Execute.Handlers.{handled-Ends}
use cybersec_proj.Execute.{Host, handled, execute_clauses}

module _ {S G C K P F : Type 0} (libs : Libs S G K P) (lib : Openssl C) (cm : CertManager K P)
    (files : FileSystem F) where
  -- A whole session, handshake included, that ends by a return or an exception: each path that it removes,
  -- empties or writes is SERVER_ROOT, one slash and a name without a slash.
  pub execute_confined :
      (rounds : ℕ) (h : Host S G F)
      → Ends (λ h'. Reach files h.fs h'.fs) (Execute.execute libs lib cm files rounds h)
  unfolding Execute.execute Execute.session
  execute_confined rounds h =
      handled-Ends (λ h'. Reach files h.fs h'.fs) execute_clauses
        (Execute.session libs lib cm files rounds h)
        (Ends-bind (λ h'. Reach files h.fs h'.fs)
          (Execute.on_party libs lib cm files (ServerHandshake.handshake libs cm) h) _
          (Ends-put_back (λ h'. Reach files h.fs h'.fs) _
            (ServerHandshake.handshake libs cm (record { sock = h.sock; rng = h.rng })) (λ p. here))
          (λ keys s k.
            let safe = Crypto.can_init keys.session_key keys.iv in
            Ends-bind (λ h'. Reach files h.fs h'.fs) (defined safe s) _
              (Ends-defined (λ h'. Reach files h.fs h'.fs) safe s k)
              (λ _ s' k'.
                Ends-put_back_inv (λ h'. Reach files h.fs h'.fs) _
                  (Server.command_loop libs.os lib files rounds
                    (Execute.client_of libs lib cm files keys s'))
                  (command_loop-Confined libs.os lib files h.fs rounds
                    (Execute.client_of libs lib cm files keys s') k'))))
