-- ===== src/ClientMain/Replies.antt =====
-- The line of a status with a size, `200`, `Size: n` and an empty line, as the client reads it.
use cybersec_proj.Base.{ℕ, ◌≤◌, ◌≡◌, ◌≢◌, ◌∙◌, refl, Bytes, [], ◌∷◌, ◌++◌, some, arith, codes}
use cybersec_proj.Base.Int.{pos}
use cybersec_proj.Protocol.{ok_status}
use cybersec_proj.Text.{decimal, extract, extract_int64, int64_max, from_text}
use cybersec_proj.Text.Plain.{IsPlainText, decimal-IsPlainText}
use cybersec_proj.Text.Extract.{
  extract_word, extract_skip, extract_int64_skip, extract_int64-decimal,
}
use cybersec_proj.ClientMain.Response.{IsReply, last, more}
use cybersec_proj.Server.{size_line}

-- Plain text before the line feeds changes nothing.
pub IsReply-after :
    (prev : ℕ) (w text : Bytes)
    → IsPlainText w
    → prev ≢ b'\n'
    → ((c : ℕ) → c ≢ b'\n' → IsReply c text)
    → IsReply prev (w ++ text)
IsReply-after prev [] text h n k = k prev n
IsReply-after prev (c ∷ w) text h n k = more c h.0 (ground arith) (IsReply-after c w text h.2 h.1 k)

pub empty_line : (c : ℕ) → c ≢ b'\n' → IsReply c (b'\n' ∷ b'\n' ∷ [])
empty_line c n = more b'\n' (omega arith) (ground arith) last

pub size_line-IsReply : (n : ℕ) → IsReply 0 (size_line n)
size_line-IsReply n =
    IsReply-after 0 (decimal ok_status) _ (decimal-IsPlainText ok_status) (omega arith) (λ c k.
      more b'\n' (omega arith) (ground arith) (
        more b'S' (omega arith) refl (
          more b'i' (omega arith) refl (
            more b'z' (omega arith) refl (
              more b'e' (omega arith) refl (
                more b':' (omega arith) refl (
                  more b' ' (omega arith) refl (
                    IsReply-after b' ' (decimal n) _ (decimal-IsPlainText n) (omega arith)
                      empty_line))))))))

-- The three extractions of a reader.
pub size_line_status :
    (n : ℕ)
    → extract_int64 (from_text (size_line n)) ≡ (
      some (pos ok_status),
      from_text (b'\n' ∷ (codes "Size: " ++ (decimal n ++ (b'\n' ∷ b'\n' ∷ [])))),
    )
size_line_status n =
    extract_int64-decimal ok_status b'\n' (codes "Size: " ++ (decimal n ++ (b'\n' ∷ b'\n' ∷ [])))
      (omega arith) refl

pub size_line_tag :
    (n : ℕ)
    → extract (from_text (b'\n' ∷ (codes "Size: " ++ (decimal n ++ (b'\n' ∷ b'\n' ∷ [])))))
      ≡ (some (codes "Size:"), from_text (b' ' ∷ (decimal n ++ (b'\n' ∷ b'\n' ∷ []))))
size_line_tag n =
    extract_skip b'\n' (codes "Size: " ++ (decimal n ++ (b'\n' ∷ b'\n' ∷ []))) refl
    ∙ extract_word b'S' (codes "ize:") b' ' (decimal n ++ (b'\n' ∷ b'\n' ∷ []))
        (refl, (refl, (refl, (refl, (refl, tt))))) refl

pub size_line_size :
    (n : ℕ)
    → n ≤ int64_max
    → extract_int64 (from_text (b' ' ∷ (decimal n ++ (b'\n' ∷ b'\n' ∷ []))))
      ≡ (some (pos n), from_text (b'\n' ∷ b'\n' ∷ []))
size_line_size n h =
    extract_int64_skip b' ' (decimal n ++ (b'\n' ∷ b'\n' ∷ [])) refl
    ∙ extract_int64-decimal n b'\n' (b'\n' ∷ []) h refl
