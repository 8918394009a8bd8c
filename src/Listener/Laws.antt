-- ===== src/Listener/Laws.antt =====
-- What `main` of the server does with the exceptions of its body.
use cybersec_proj.Base.{
  ℕ, zero, suc, ◌≡◌, ◌≢◌, ◌∙◌, refl, sym, ap, ◌↔◌, inl, inr, ◌⊎◌, check, true, false, ◌&&◌, Bytes,
  List, [], ◌∷◌, codes, Option, some, none, Outcome, ok, throws, bind, return, arith, Bool-cases,
}
use cybersec_proj.Exception.{Ex, ex_certificate, system_error, first_handler, ex_network}
use cybersec_proj.Certificate.{Pem}
use cybersec_proj.CertManager
use cybersec_proj.CertManager.Loading.{init-OkOrCert}
use cybersec_proj.CertManager.{CertManager, Trust}
use cybersec_proj.Execute.{handled}
use cybersec_proj.Listener
use cybersec_proj.Listener.{Inet, Server, Daemon, to_uint16}

ok-neq-throws : {S A : Type 0} {a : A} {s s' : S} {e : Ex} → (ok a s ≢ throws e s')
ok-neq-throws h = cc

throws-inj :
    {S A : Type 0} {e f : Ex} {s t : S}
    → {o : Outcome S A} → o ≡ throws e s
    → o ≡ throws f t
    → (e ≡ f) × (s ≡ t)
throws-inj g h = (cc, cc)

module _ {N S K P R T : Type 0} (inet : Inet N S) (trust : Trust K R T) (certs : Pem K)
    (crls : Pem R) (keys : Pem P) where
  open inet use {atoi, names}

  -- One of at most `rounds` threads is refused by the system, with the state at the start and after it.
  pub data StartFails : ℕ → Daemon N S → Daemon N S → Type 0 where
    now :
        {rounds : ℕ} {d : Daemon N S}
        → (inet.start (inet.accept d.net).1).0 ≡ false
        → StartFails (suc rounds) d (record d { net = (inet.start (inet.accept d.net).1).1 })
    later :
        {rounds : ℕ} {d d' : Daemon N S}
        → (inet.start (inet.accept d.net).1).0 ≡ true
        → StartFails rounds
            (record {
              net = (inet.start (inet.accept d.net).1).1;
              started = (inet.accept d.net).0 ∷ d.started;
            })
            d'
        → StartFails (suc rounds) d d'

  accept_loop_throws :
      (rounds : ℕ) (d d' : Daemon N S)
      → StartFails rounds d d'
      → Listener.accept_loop inet trust certs crls keys rounds d ≡ throws system_error d'
  unfolding Listener.accept_loop Listener.accept
  accept_loop_throws _ _ _ (now e) = rw (e, check) refl
  accept_loop_throws _ _ d' (later e f) = rw (e, check) (accept_loop_throws _ _ d' f)

  accept_loop_ends :
      (rounds : ℕ) (d : Daemon N S)
      → ((d' : Daemon N S) × (Listener.accept_loop inet trust certs crls keys rounds d ≡ ok tt d'))
        ⊎ ((d' : Daemon N S) × StartFails rounds d d')
  unfolding Listener.accept_loop Listener.accept
  accept_loop_ends zero d = inl (d, refl)
  accept_loop_ends (suc rounds) d =
      let next : Daemon N S = record {
        net = (inet.start (inet.accept d.net).1).1;
        started = (inet.accept d.net).0 ∷ d.started;
      } in
      elim (Bool-cases ((inet.start (inet.accept d.net).1).0)) [
        | inr e ↦ inr (record d { net = (inet.start (inet.accept d.net).1).1 }, now e)
        | inl e ↦ elim (accept_loop_ends rounds next) [
          | inl (d', q) ↦ inl (d', rw (e, check) q)
          | inr (d', f) ↦ inr (d', later e f)
        ]
      ]

  -- The exception of the constructor of `CertManager` for the listening server.
  abbrev pub CertFails : Daemon N S → Type 0
  CertFails d =
      CertManager.init trust certs crls keys (codes "server") (Listener.lines names) d
      ≡ throws ex_certificate d

  -- What leaves `main` once the port listens: that exception, or that of a thread that is not started.
  abbrev pub Leaves : ℕ → Daemon N S → Daemon N S → Ex → Type 0
  Leaves rounds d d' e =
      (CertFails d × (e ≡ ex_certificate) × (d' ≡ d))
      ⊎ ((cm : CertManager K P) × (CertManager.init trust certs crls keys (codes "server")
              (Listener.lines names) d
            ≡ ok cm d)
          × StartFails rounds d d'
          × (e ≡ system_error))

  init_listening :
      (port : ℕ) (d : Daemon N S)
      → inet.bind port ≡ true
      → inet.listen ≡ true
      → Listener.init inet trust certs crls keys port d
        ≡ bind
            (CertManager.init trust certs crls keys (codes "server") (Listener.lines names) d)
            (λ cm. return (record { cm = cm; auth_client_list = Listener.lines names }))
  unfolding Listener.init
  init_listening port d b l = rw (b, l) refl

  abbrev main_ends : ℕ → ℕ → Daemon N S → Outcome (Daemon N S) (Option Ex)
  main_ends port rounds d = handled (Listener.main_clauses inet trust certs crls keys) (
      bind (Listener.init inet trust certs crls keys port d)
        (λ server. Listener.accept_loop inet trust certs crls keys rounds))

  -- How `main` ends once its body has ended in each of the ways it can.
  started_escapes :
      (port : ℕ) (rounds : ℕ) (d d' : Daemon N S) (e : Ex)
      → (main_ends port rounds d ≡ throws e d')
        ↔ (((inet.bind port && inet.listen) ≡ true) × Leaves rounds d d' e)
  unfolding Listener.init first_handler
  started_escapes port rounds d d' e = elim (Bool-cases (inet.bind port)) [
    | inr b ↦
        let ends : main_ends port rounds d ≡ ok (some ex_network) d = rw (b, handled) refl in
        (λ h. absurd (ok-neq-throws (sym ends ∙ h)), λ k. absurd (ground (arith, b, k.0)))
    | inl b ↦ elim (Bool-cases (inet.listen)) [
      | inr l ↦
          let ends : main_ends port rounds d ≡ ok (some ex_network) d = rw (b, l, handled) refl in
          (λ h. absurd (ok-neq-throws (sym ends ∙ h)), λ k. absurd (ground (arith, b, l, k.0)))
      | inl l ↦
          elim (init-OkOrCert trust certs crls keys (codes "server") (Listener.lines names) d) [
            | inl (cm, q) ↦ elim (accept_loop_ends rounds d) [
              | inl (d2, r) ↦
                  let ends : main_ends port rounds d ≡ ok none d2 =
                    rw (init_listening port d b l, q)
                      (ap (handled (Listener.main_clauses inet trust certs crls keys)) r) in
                  (
                    λ h. absurd (ok-neq-throws (sym ends ∙ h)),
                    λ k. elim (k.1) [
                      | inl (c, _, _) ↦ absurd (ok-neq-throws (sym q ∙ c))
                      | inr (_, _, f, _) ↦
                          absurd (ok-neq-throws (sym r ∙ accept_loop_throws rounds d d' f))
                    ],
                  )
              | inr (d2, f) ↦
                  let ends : main_ends port rounds d ≡ throws system_error d2 =
                    rw (init_listening port d b l, q)
                      (ap (handled (Listener.main_clauses inet trust certs crls keys))
                        (accept_loop_throws rounds d d2 f)) in
                  (
                    λ h.
                        let same = throws-inj ends h in
                        (rw (b, l) refl, inr (cm, q, rw (← same.1) f, sym same.0)),
                    λ k. elim (k.1) [
                      | inl (c, _, _) ↦ absurd (ok-neq-throws (sym q ∙ c))
                      | inr (_, _, f', e') ↦
                          rw (init_listening port d b l, q, e')
                            (ap (handled (Listener.main_clauses inet trust certs crls keys))
                              (accept_loop_throws rounds d d' f'))
                    ],
                  )
            ]
            | inr q ↦
                let ends : main_ends port rounds d ≡ throws ex_certificate d =
                  rw (init_listening port d b l, q, handled) refl in
                (
                  λ h.
                      let same = throws-inj ends h in
                      (rw (b, l) refl, inl (q, sym same.0, sym same.1)),
                  λ k. elim (k.1) [
                    | inl (_, e', d'') ↦ rw (e', d'') ends
                    | inr (_, q', _, _) ↦ absurd (ok-neq-throws (sym q' ∙ q))
                  ],
                )
          ]
    ]
  ]

  -- Running out of memory left aside, an exception leaves `main` of the server exactly if the arguments
  -- are right, the port can be bound and listened on, and either the constructor of `CertManager` throws,
  -- and it is ExCertificate in the state that `main` started in, or it does not and the system refuses one
  -- of the threads, and it is std::system_error. The clauses of `main` take every other exception of its body.
  pub main_escapes :
      (args : List Bytes) (rounds : ℕ) (d d' : Daemon N S) (e : Ex)
      → (Listener.main inet trust certs crls keys args rounds d ≡ throws e d')
        ↔ ((Listener.can_start inet trust certs crls keys args ≡ true) × Leaves rounds d d' e)
  unfolding Listener.main Listener.serve first_handler
  main_escapes [] rounds d d' e = (λ h. absurd (ok-neq-throws h), λ k. absurd (ground (arith, k.0)))
  main_escapes (port ∷ []) rounds d d' e = started_escapes (to_uint16 (atoi port)) rounds d d' e
  main_escapes (port ∷ debug ∷ []) rounds d d' e =
      started_escapes (to_uint16 (atoi port)) rounds d d' e
  main_escapes (port ∷ debug ∷ more ∷ rest) rounds d d' e =
      (λ h. absurd (ok-neq-throws h), λ k. absurd (ground (arith, k.0)))
