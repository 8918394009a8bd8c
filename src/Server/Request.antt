-- ===== src/Server/Request.antt =====
-- How the server reads a command: `recvCmd` against the client's `recv_response`, and a RETR command
-- up to the content.
use cybersec_proj.Base.{
  ℕ, zero, suc, ◌-◌, ◌≡◌, refl, ◌&&◌, Bytes, [], ◌∷◌, ok, throws, fault, Outcome, bind, put_back,
  return, ◌==◌, Bool-cases, inl, inr,
}
use cybersec_proj.Protocol.{buffer_size}
use cybersec_proj.Text.{c_string, from_text}
use cybersec_proj.Openssl.{Openssl}
use cybersec_proj.Connection.{Socket}
use cybersec_proj.Crypto
use cybersec_proj.Crypto.{Link}
use cybersec_proj.ClientMain
use cybersec_proj.Server
use cybersec_proj.Server.{FileSystem, Client, full_path}

module _ {S C F : Type 0} (os : Socket S) (lib : Openssl C) (files : FileSystem F) where
  -- A run of the link alone, as a run of the server's object.
  abbrev pub lifted : {A : Type 0} → Client S C F → Outcome (Link S C) A → Outcome (Client S C F) A
  lifted c o = put_back (λ l. record c { link = l }) o

  bind-lifted :
      (c : Client S C F) (o : Outcome (Link S C) Bytes) (f : Bytes → Bytes)
      → bind (lifted c o) (λ r. return (f r)) ≡ lifted c (bind o (λ r. return (f r)))
  bind-lifted c (ok a l) f = refl
  bind-lifted c (throws e l) f = refl
  bind-lifted c fault f = refl

  kept_char :
      (rounds prev : ℕ) (got : Bytes) (c : Client S C F)
      → ((p : ℕ)
          → Server.recv_cmd_loop os lib files rounds p c
            ≡ lifted c (ClientMain.recv_response_loop os lib rounds p c.link))
      → Server.keep_char os lib files (Server.recv_cmd_loop os lib files rounds) prev got c
        ≡ lifted c (
            ClientMain.next_byte os lib
              (ClientMain.recv_response_loop os lib rounds)
              prev
              got
              c.link)
  unfolding Server.keep_char ClientMain.next_byte
  kept_char rounds prev [] c h =
      rw (h prev) (bind-lifted c (ClientMain.recv_response_loop os lib rounds prev c.link) (◌∷◌ 0))
  kept_char rounds prev (x ∷ _) c h = elim (Bool-cases ((prev == b'\n') && (x == b'\n'))) [
    | inl e ↦ rw e refl
    | inr e ↦
        rw (e, h x) (bind-lifted c (ClientMain.recv_response_loop os lib rounds x c.link) (◌∷◌ x))
  ]

  after_recv :
      (rounds prev : ℕ) (c : Client S C F) (o : Outcome (Link S C) Bytes)
      → ((p : ℕ) (c' : Client S C F)
          → Server.recv_cmd_loop os lib files rounds p c'
            ≡ lifted c' (ClientMain.recv_response_loop os lib rounds p c'.link))
      → bind
          (lifted c o)
          (Server.keep_char os lib files (Server.recv_cmd_loop os lib files rounds) prev)
        ≡ lifted c (
            bind o (ClientMain.next_byte os lib (ClientMain.recv_response_loop os lib rounds) prev))
  after_recv rounds prev c (ok got l) h =
      kept_char rounds prev got (record c { link = l }) (λ p. h p (record c { link = l }))
  after_recv rounds prev c (throws e l) h = refl
  after_recv rounds prev c fault h = refl

  recv_cmd_loop_lem :
      (rounds prev : ℕ) (c : Client S C F)
      → Server.recv_cmd_loop os lib files rounds prev c
        ≡ lifted c (ClientMain.recv_response_loop os lib rounds prev c.link)
  unfolding Server.recv_cmd_loop ClientMain.recv_response_loop
  recv_cmd_loop_lem zero prev c = refl
  recv_cmd_loop_lem (suc rounds) prev c =
      after_recv rounds prev c (Crypto.recv os lib 1 c.link) (λ p c'. recv_cmd_loop_lem rounds p c')

  -- `Client::recvCmd` of the server and `recv_response` of the client do the same to the link and make
  -- the same stream, in every state, also where they throw or are not defined; `recvCmd` changes nothing
  -- else of the object.
  pub recv_cmd-eq-recv_response :
      (c : Client S C F)
      → Server.recv_cmd os lib files c
        ≡ bind
            (lifted c (ClientMain.recv_response os lib c.link))
            (λ is' c'. ok tt (record c' { is = is' }))
  unfolding Server.recv_cmd ClientMain.recv_response
  recv_cmd-eq-recv_response c =
      rw (recv_cmd_loop_lem (buffer_size - 1) 0 c)
        (regrouped (ClientMain.recv_response_loop os lib (buffer_size - 1) 0 c.link))
    where
      regrouped :
          (o : Outcome (Link S C) Bytes)
          → bind (lifted c o) (λ buffer c'. ok tt (record c' { is = from_text (c_string buffer) }))
            ≡ bind
                (lifted c (bind o (λ buffer. return (from_text (c_string buffer)))))
                (λ is' c'. ok tt (record c' { is = is' }))
      regrouped (ok a l) = refl
      regrouped (throws e l) = refl
      regrouped fault = refl
