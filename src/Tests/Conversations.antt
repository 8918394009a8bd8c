-- ===== src/Tests/Conversations.antt =====
-- Examples for rows of commands.
use cybersec_proj.Base.{
  ℕ, ◌<◌, ◌≤◌, ◌≡◌, refl, ap, List, [], ◌∷◌, arith, codes, some-inj, length, length-append,
}
use cybersec_proj.Connection.Pipe.{Pipe, pipe, pipe_stream}
use cybersec_proj.Openssl.Toy.{toy, toy-IsSound}
use cybersec_proj.Protocol.{parola, buffer_size, max_file_size}
use cybersec_proj.Text.{decimal}
use cybersec_proj.Text.Extract.{IsWord}
use cybersec_proj.Text.Decimal.{length-decimal}
use cybersec_proj.Crypto
use cybersec_proj.Crypto.Channel.{All}
use cybersec_proj.ClientMain.Program
use cybersec_proj.ClientMain.Program.{Program, Local, retr_line, stor_line, basename}
use cybersec_proj.Server.{Client}
use cybersec_proj.Transfer.Joint.{InSession}
use cybersec_proj.Transfer.Conversation.{
  Request, get, put, delete, IsRequest, Conversation, view, perform_all,
}
use cybersec_proj.Transfer.Conversation.Refine.{Conversation-perform_all}
use cybersec_proj.Tests.Disk.{Disk, disk, disk-IsDisk}
use cybersec_proj.Tests.Ends.{name, client, machine, program, deliver, deliver-Delivers, both}

abbrev requests : List Request
requests = put (codes "docs/notes.txt") ∷ delete name ∷ get name ∷ []

stor_short : (size : ℕ) → size ≤ max_file_size → length (stor_line name size) < buffer_size
unfolding stor_line
stor_short size h =
    omega
      (arith, length-append (decimal size) (b'\n' ∷ b'\n' ∷ []), length-decimal size (omega arith))

word : IsWord (codes "docs/notes.txt")
word = (
  refl,
  (
    refl,
    (
      refl,
      (refl, (refl, (refl, (refl, (refl, (refl, (refl, (refl, (refl, (refl, (refl, tt))))))))))),
    ),
  ),
)

requests-All : All IsRequest requests
unfolding parola basename Program.basename_loop retr_line
requests-All =
    ((word, λ size h. (refl, stor_short size h)), ((refl, omega arith), ((refl, omega arith), tt)))

Conversation-perform_all_example :
    (p' : Program Pipe ℕ Disk) × (c' : Client Pipe ℕ Disk) × Conversation pipe pipe_stream toy
      (λ e d. e ≡ d)
      disk
      machine
      deliver
      requests
      program
      client
      p'
      c'
    × InSession (λ e d. e ≡ d) p' c'
    × (view pipe pipe_stream toy (λ e d. e ≡ d) disk machine deliver p' c'
        ≡ perform_all requests
            (view pipe pipe_stream toy (λ e d. e ≡ d) disk machine deliver program client))
unfolding Crypto.init
Conversation-perform_all_example =
    Conversation-perform_all pipe pipe_stream toy toy-IsSound disk disk-IsDisk machine disk-IsDisk
      (λ f path content e. (refl, e)) deliver deliver-Delivers requests program client both
      requests-All (λ path content e. omega (arith, ap (length {A = ℕ}) (some-inj e))) (omega arith)
      (omega arith)
