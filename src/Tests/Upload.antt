-- ===== src/Tests/Upload.antt =====
-- Examples for the client's upload and for the names that certificates carry.
use cybersec_proj.Base.{ℕ, ◌≡◌, ◌↔◌, ok, true, Bytes, List, [], ◌∷◌, length, codes, some}
use cybersec_proj.Connection.Pipe.{Pipe, pipe}
use cybersec_proj.Openssl.Toy.{toy}
use cybersec_proj.Crypto.{Link}
use cybersec_proj.Crypto.Channel.{IsMessage, All, concat}
use cybersec_proj.Crypto.Session.{send_each}
use cybersec_proj.ClientMain
use cybersec_proj.ClientMain.Upload.{send_file_lem}
use cybersec_proj.CertManager
use cybersec_proj.CertManager.{X509}
use cybersec_proj.CertManager.Laws.{Named, verify_cert_iff}
use cybersec_proj.Tests.Data.{quiet, hello}

send_file_lem_example :
    (ps : List Bytes) × ((l : Link Pipe ℕ)
      → ClientMain.send_file pipe toy (some hello) 5 l ≡ send_each pipe toy ps l)
    × All IsMessage ps
    × (concat ps ≡ hello)
    × (length ps ≡ 1)
send_file_lem_example = send_file_lem pipe toy hello

-- Certificates that are their own subject lines, all valid.
abbrev all_valid : X509 Bytes
all_valid = record {
  new_ctx = true;
  init_ctx = λ k. true;
  verify_cert = λ k. true;
  oneline = λ k. k;
}

verify_cert_iff_example :
    (CertManager.verify_cert all_valid (codes "alice" ∷ []) (codes "/CN=bob") quiet ≡ ok tt quiet)
    ↔ ((true ≡ true) × (true ≡ true) × (true ≡ true) × Named (codes "/CN=bob") (codes "alice" ∷ []))
verify_cert_iff_example = verify_cert_iff all_valid (codes "alice" ∷ []) (codes "/CN=bob") quiet
