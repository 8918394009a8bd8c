-- ===== src/ClientMain/Listing.antt =====
-- What `recv_list` prints for a listing of names.
use cybersec_proj.Base.{
  ℕ, suc, ◌<◌, ◌≡◌, ◌∙◌, refl, sym, ap, subst, append-nil, ◌-◌, true, false, Bytes, List, [], ◌∷◌,
  ◌++◌, arith, length, length-append, drop, replicate, ok, bytes_eq, ltb,
}
use cybersec_proj.Protocol.{buffer_size}
use cybersec_proj.Text.{Istream, from_text, c_string}
use cybersec_proj.Openssl.{Openssl, IsSound}
use cybersec_proj.Connection.{Socket}
use cybersec_proj.Connection.Stream.{Stream}
use cybersec_proj.Crypto
use cybersec_proj.Crypto.{Link}
use cybersec_proj.Crypto.Pending.{pending}
use cybersec_proj.Crypto.Channel.{Mark, All, Ready, SameSender}
use cybersec_proj.Crypto.Whole.{recv_whole}
use cybersec_proj.ClientMain.Program
use cybersec_proj.ClientMain.Program.{Program, Local, print_round, print_words, has_zero}
use cybersec_proj.ClientMain.Replies.{size_line_status, size_line_tag, size_line_size}
use cybersec_proj.Server.{size_line}
use cybersec_proj.ClientMain.Printing.{
  listing, IsShown, print_listing, zero_after, string_of, listing_zero, rest_zero, names_few,
}

-- A message, if there is anything to send.
abbrev pub none_or_one : Bytes → List Bytes
none_or_one [] = []
none_or_one (c ∷ cs) = (c ∷ cs) ∷ []

Ready-named :
    {S C : Type 0} (os : Socket S) (net : Stream os) (lib : Openssl C) {InSync : C → C → Type 0}
    (sound : IsSound lib InSync) {mark : Mark C} (l : Link S C) {m m' : Bytes}
    → m ≡ m'
    → Ready os net lib sound mark l (m ∷ [])
    → Ready os net lib sound mark l (m' ∷ [])
Ready-named os net lib sound {mark = mark} l e h =
    subst (λ (m : Bytes). Ready os net lib sound mark l (m ∷ [])) e h

module _ {S C F : Type 0} (os : Socket S) (net : Stream os) (lib : Openssl C)
    {InSync : C → C → Type 0} (sound : IsSound lib InSync) (local : Local F) where
  open net use {outbox}

  -- The one round of `recv_list` for a listing that comes as one message.
  list_loop :
      {mark : Mark C} (k : ℕ) (names : List Bytes) (p : Program S C F)
      → length (listing names) ≡ suc k
      → suc k < buffer_size
      → All IsShown names
      → Ready os net lib sound mark p.link (listing names ∷ [])
      → pending p.link.statics ≡ []
      → p.is.good ≡ true
      → (l' : Link S C) × (is' : Istream) × (Program.recv_list_loop os lib local
            (suc k)
            (replicate buffer_size 0)
            (suc k)
            p
          ≡ ok tt (record p { link = l'; is = is'; out = p.out ++ listing names }))
        × Ready os net lib sound mark l' []
        × (pending l'.statics ≡ [])
        × (outbox l'.sock ≡ outbox p.link.sock)
        × SameSender p.link l'
  unfolding Program.recv_list_loop Program.recv_fragment
  list_loop k names p size small shown ready empty good =
      let m = listing names in
      let (l', q, ready', empty', quiet, sender) =
        recv_whole os net lib sound p.link m [] ready empty in
      let q' : Crypto.recv os lib (suc k) p.link ≡ ok m l' =
        ap (λ (n : ℕ). Crypto.recv os lib n p.link) (sym size) ∙ q in
      let fits : ltb buffer_size (suc k) ≡ false = ground arith in
      let none_left : suc k - length m ≡ 0 = omega arith in
      let (j, rest) = rest_zero m (omega arith) in
      let buffer = m ++ drop (length m) (replicate buffer_size 0) in
      let zero_there : has_zero buffer ≡ true =
        ap (λ (bs : Bytes). has_zero (m ++ bs)) rest ∙ zero_after j m in
      let text_there : c_string buffer ≡ m =
        ap (λ (bs : Bytes). c_string (m ++ bs)) rest ∙ string_of j m (listing_zero names shown) in
      let is' = (print_words (suc (length buffer)) (record { unread = m; good = true })).1 in
      let printed : (print_words (suc (length buffer)) (record { unread = m; good = true })).0 ≡ m =
        print_listing names (length buffer) shown (
          omega (
            arith,
            names_few names,
            length-append m (drop (length m) (replicate buffer_size 0)),
          )) in
      (
        l',
        (print_words (suc (length buffer)) (record { unread = m; good = true })).1,
        rw (fits, q', zero_there, text_there, good, none_left)
            (ap (λ (lines : Bytes). ok tt (record p { link = l'; is = is'; out = p.out ++ lines }))
              printed),
        ready',
        empty',
        quiet,
        sender,
      )

  -- The reply is read, and the listing `m` is on its way as one message, or is empty and nothing comes.
  -- Then `recv_list` reads all of it and prints each name on a line of its own.
  pub recv_list_lem :
      {mark : Mark C} (m : Bytes) (names : List Bytes) (p : Program S C F)
      → listing names ≡ m
      → length m < buffer_size
      → All IsShown names
      → Ready os net lib sound mark p.link (none_or_one m)
      → pending p.link.statics ≡ []
      → (l' : Link S C) × (is' : Istream) × (Program.recv_list os lib local
            (record p { is = from_text (size_line (length m)) })
          ≡ ok tt (record p { link = l'; is = is'; out = p.out ++ m }))
        × Ready os net lib sound mark l' []
        × (pending l'.statics ≡ [])
        × (outbox l'.sock ≡ outbox p.link.sock)
        × SameSender p.link l'
  unfolding Program.recv_list Program.list_tagged Program.list_sized Program.recv_list_loop
      Program.read_number Program.read_word bytes_eq
  recv_list_lem [] names p e small shown ready empty = (
    p.link,
    from_text [],
    rw (size_line_status 0, size_line_tag 0, size_line_size 0 (omega arith))
        (ap (λ (lines : Bytes). ok tt (record p { is = from_text []; out = lines }))
          (sym (append-nil p.out))),
    ready,
    empty,
    refl,
    (refl, refl, refl),
  )
  recv_list_lem (c ∷ cs) names p e small shown ready empty =
      let (l', is', q, ready', empty', quiet, sender) =
        list_loop (length cs) names (record p { is = from_text [] }) (ap (length {A = ℕ}) e) small
          shown (Ready-named os net lib sound p.link (sym e) ready) empty refl in
      (
        l',
        is',
        rw
            (
              size_line_status (suc (length cs)),
              size_line_tag (suc (length cs)),
              size_line_size (suc (length cs)) (omega arith),
            )
            (q ∙ ap (λ (m : Bytes). ok tt (record p { link = l'; is = is'; out = p.out ++ m })) e),
        ready',
        empty',
        quiet,
        sender,
      )
