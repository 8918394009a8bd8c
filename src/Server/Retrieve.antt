-- ===== src/Server/Retrieve.antt =====
-- RETR: the messages that `cmd_retr` cuts a file into.
use cybersec_proj.Base.Int.{pos}
use cybersec_proj.Base.{
  ℕ, suc, ◌+◌, ◌*◌, ◌%◌, ◌/◌, ◌^◌, codes, ◌≤◌, ◌<◌, ◌≡◌, ◌∙◌, refl, sym, ap, Bytes, List, [], ◌∷◌,
  ◌++◌, append_assoc, append-nil, arith, length, length-append, ok, ltb, ltb→lt, ◌==◌, Bool-cases,
  inl, inr, ==_iff,
}
use cybersec_proj.Protocol.{buffer_size, hmac_len, ok_status}
use cybersec_proj.Text.{decimal, int64_max}
use cybersec_proj.Text.Decimal.{length-decimal}
use cybersec_proj.Word.{u32_mod}
use cybersec_proj.Openssl.{Openssl, IsSound}
use cybersec_proj.Connection.{Socket}
use cybersec_proj.Connection.Stream.{Stream}
use cybersec_proj.Crypto.{Link}
use cybersec_proj.Crypto.Channel.{IsMessage, concat}
use cybersec_proj.Server
use cybersec_proj.Server.{FileSystem, Client, size_line, full_path}
use cybersec_proj.Server.Reply.{Sent, Sent-trans, send_cmd_lem}

length_zero : {A : Type 0} (xs : List A) → length xs ≤ 0 → xs ≡ []
length_zero [] h = refl
length_zero (x ∷ xs) h = absurd (omega arith)

concat-append : (ps qs : List Bytes) → concat (ps ++ qs) ≡ concat ps ++ concat qs
concat-append [] qs = refl
concat-append (p ∷ ps) qs = rw (concat-append ps qs) (sym (append_assoc p (concat ps) (concat qs)))

pub length-size_line :
    (n : ℕ) → n < 10 ^ 20 → (0 < length (size_line n)) × (length (size_line n) ≤ 60)
length-size_line n h =
    let len =
      length-append (decimal ok_status)
        (b'\n' ∷ (codes "Size: " ++ (decimal n ++ (b'\n' ∷ b'\n' ∷ [])))) in
    let len' = length-append (decimal n) (b'\n' ∷ b'\n' ∷ []) in
    (
      omega (arith, len),
      omega (arith, len, len', length-decimal n h, length-decimal ok_status (omega arith)),
    )

pub size_line-IsMessage : (n : ℕ) → n < 10 ^ 20 → IsMessage (size_line n)
size_line-IsMessage n h = let (lo, hi) = length-size_line n h in (lo, omega arith)

module _ {S C F : Type 0} (os : Socket S) (net : Stream os) (lib : Openssl C)
    {InSync : C → C → Type 0} (sound : IsSound lib InSync) (files : FileSystem F) where
  pub Sent-refl :
      (l : Link S C) (d : C) (y : InSync l.crypto.ctx_e d) → Sent os net lib sound files l d y l []
  Sent-refl l d y = record {
    peer = d;
    sync = y;
    carries = λ more. refl;
    ended = λ more. refl;
    receiver = (refl, refl, refl);
    messages = tt;
    counted = omega arith;
    keyed = refl;
    unread = refl;
  }

  -- What a part of `cmd_retr` that writes `text` ends with: it has sent messages, and what it has
  -- not sent yet is still in the stream.
  record Flows (c : Client S C F) (d : C) (y : InSync c.link.crypto.ctx_e d) (text : Bytes)
      (c' : Client S C F) : Type 0 where
    pub sent : List Bytes
    pub sends : Sent os net lib sound files c.link d y c'.link sent
    pub split : c.os ++ text ≡ concat sent ++ c'.os
    pub kept : c'.fs ≡ c.fs

  -- Messages that the loop sends before byte number `count`.
  abbrev sends_before : ℕ → ℕ
  sends_before count = (count + 4095) / 4096

  retr_loop_lem :
      (content : Bytes) (count : ℕ) (c : Client S C F) (d : C) (y : InSync c.link.crypto.ctx_e d)
      → length c.os ≤ (count + 4095) % 4096
      → length c.link.crypto.auth_key ≡ hmac_len
      → c.link.crypto.sequence_number_o + 2 * sends_before (count + length content)
        < u32_mod + 2 * sends_before count
      → (c' : Client S C F) × (Server.retr_loop os lib files content count c ≡ ok tt c')
        × (flow : Flows c d y content c') × (length flow.sent + sends_before count
            ≡ sends_before (count + length content))
        × (length c'.os < buffer_size)
  unfolding Server.retr_loop
  retr_loop_lem [] count c d y h k r = (
    c,
    refl,
    record { sent = []; sends = Sent-refl c.link d y; split = append-nil c.os; kept = refl },
    omega arith,
    omega arith,
  )
  retr_loop_lem (x ∷ xs) count c d y h k r =
      let c0 : Client S C F = record c { os = c.os ++ (x ∷ []) } in
      let n0 : length c0.os ≡ length c.os + 1 = length-append c.os (x ∷ []) in
      let shift : count + suc (length xs) ≡ (count + 1) + length xs = omega arith in
      elim (Bool-cases (count % buffer_size == 0)) [
        | inl e ↦
            let z : count % 4096 ≡ 0 = (==_iff _ _).0 e in
            let (c1, q1, s1, w1, g1) =
              send_cmd_lem os net lib sound files c0 d y (omega (arith, n0), omega (arith, n0)) k
                (omega arith) in
            let (c2, q2, f2, n2, m2) =
              retr_loop_lem xs (count + 1) c1 s1.peer s1.sync (rw w1 (omega arith))
                (rw (s1.keyed) k) (omega (arith, s1.counted)) in
            (
              c2,
              rw (e, q1) q2,
              record {
                sent = c0.os ∷ f2.sent;
                sends = Sent-trans os net lib sound files s1 f2.sends;
                split =
                    sym (append_assoc c.os (x ∷ []) xs)
                    ∙ ap (◌++◌ c0.os) (ap (λ (bs : Bytes). bs ++ xs) (sym w1) ∙ f2.split)
                    ∙ sym (append_assoc c0.os (concat f2.sent) c2.os);
                kept = f2.kept ∙ g1;
              },
              omega (arith),
              m2,
            )
        | inr e ↦
            let nz : 0 < count % 4096 = ground arith in
            let (c2, q2, f2, n2, m2) =
              retr_loop_lem xs (count + 1) c0 d y (omega (arith, n0)) k (omega arith) in
            (
              c2,
              rw e q2,
              record {
                sent = f2.sent;
                sends = f2.sends;
                split = sym (append_assoc c.os (x ∷ []) xs) ∙ f2.split;
                kept = f2.kept;
              },
              omega arith,
              m2,
            )
      ]

  -- The last `sendCmd`: what is left goes out, and nothing if nothing is left.
  pub flush_lem :
      (c : Client S C F) (d : C) (y : InSync c.link.crypto.ctx_e d)
      → length c.os ≤ buffer_size
      → length c.link.crypto.auth_key ≡ hmac_len
      → c.link.crypto.sequence_number_o + 2 < u32_mod
      → (c' : Client S C F) × (sent : List Bytes) × (Server.send_cmd os lib files c ≡ ok tt c')
        × Sent os net lib sound files c.link d y c'.link sent
        × (concat sent ≡ c.os)
        × (length sent ≤ 1)
        × (c'.os ≡ [])
        × (c'.fs ≡ c.fs)
  unfolding Server.send_cmd
  flush_lem c d y h k r = elim (Bool-cases (ltb 0 (length c.os))) [
    | inl some_left ↦
        let (c', q, s, w, g) =
          send_cmd_lem os net lib sound files c d y (ltb→lt _ _ some_left, h) k r in
        (c', c.os ∷ [], q, s, append-nil c.os, omega arith, w, g)
    | inr none_left ↦
        let empty : c.os ≡ [] = length_zero c.os (ground arith) in
        (
          record c { os = [] },
          [],
          rw none_left refl,
          Sent-refl c.link d y,
          sym empty,
          omega arith,
          refl,
          refl,
        )
  ]

  -- RETR of a file that can be opened sends the line with the answer `n` of `tellg` and then all the bytes
  -- that can be read, unchanged and in order, as messages that each fit a buffer, at most one for each 4096
  -- bytes begun and two more; nothing is left in the stream. The two agree for a regular file.
  pub send_content_lem :
      (n : ℕ) (content : Bytes) (c : Client S C F) (d : C) (y : InSync c.link.crypto.ctx_e d)
      → c.os ≡ []
      → n ≤ int64_max
      → length c.link.crypto.auth_key ≡ hmac_len
      → c.link.crypto.sequence_number_o + 2 * (2 + (length content + 4095) / 4096) < u32_mod
      → (c' : Client S C F) × (sent : List Bytes) × (Server.send_content os lib files
            (pos n)
            content
            c
          ≡ ok tt c')
        × Sent os net lib sound files c.link d y c'.link sent
        × (concat sent ≡ size_line n ++ content)
        × (length sent ≤ 2 + (length content + 4095) / 4096)
        × (c'.os ≡ [])
        × (c'.fs ≡ c.fs)
  unfolding Server.send_content
  send_content_lem n content c d y z small k r =
      let head = size_line n in
      let c0 : Client S C F = record c { os = c.os ++ head } in
      let written : c0.os ≡ head = rw z refl in
      let (c1, q1, s1, w1, g1) =
        send_cmd_lem os net lib sound files c0 d y
          (rw written (size_line-IsMessage n (omega (arith, small)))) k (omega arith) in
      let (c2, q2, f, n2, m2) =
        retr_loop_lem content 0 c1 s1.peer s1.sync (rw w1 (omega arith)) (rw (s1.keyed) k)
          (omega (arith, s1.counted)) in
      let (c3, last, q3, s3, w3, n3, e3, g3) =
        flush_lem c2 f.sends.peer f.sends.sync (omega (arith, m2)) (rw (f.sends.keyed, s1.keyed) k)
          (omega (arith, s1.counted, f.sends.counted)) in
      (
        c3,
        c0.os ∷ (f.sent ++ last),
        rw (q1, q2) q3,
        Sent-trans os net lib sound files s1 (Sent-trans os net lib sound files f.sends s3),
        ap (λ (bs : Bytes). bs ++ concat (f.sent ++ last)) written
            ∙ ap (◌++◌ head) (
                concat-append f.sent last
                ∙ ap (◌++◌ (concat f.sent)) w3
                ∙ sym f.split
                ∙ ap (λ (bs : Bytes). bs ++ content) w1),
        omega (arith, length-append f.sent last),
        e3,
        g3 ∙ f.kept ∙ g1,
      )
