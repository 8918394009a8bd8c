-- ===== src/Transfer/Conversation/Refine.antt =====
-- The two programs implement `perform_all`.
use cybersec_proj.Base.{
  ℕ, subst⁻¹, ◌+◌, ◌*◌, ◌<◌, ◌≤◌, ◌≡◌, ◌∙◌, refl, ap, true, Bytes, List, [], ◌∷◌, Option, none,
  some, arith, length, Option-cases, inl, inr, Bool-cases, some-inj, ltb, bytes_eq,
}
use cybersec_proj.Protocol.{max_file_size}
use cybersec_proj.Word.{u32_mod}
use cybersec_proj.Openssl.{Openssl, IsSound}
use cybersec_proj.Connection.{Socket}
use cybersec_proj.Connection.Stream.{Stream}
use cybersec_proj.Crypto.Channel.{All}
use cybersec_proj.ClientMain.Program.{Program, Local}
use cybersec_proj.Server.{FileSystem, Client, full_path}
use cybersec_proj.Transfer.Joint.{InSession}
use cybersec_proj.Transfer.Exchange.{Delivers}
use cybersec_proj.Transfer.Conversation.{
  Request, get, put, delete, View, update, receive, store, perform, perform_all, IsRequest,
  IsBounded, cost, view, Conversation, done, turn,
}
use cybersec_proj.Transfer.Conversation.Disk.{IsDisk}
use cybersec_proj.Transfer.Conversation.Steps.{Performed, got, missed, deleted}
use cybersec_proj.Transfer.Conversation.Puts.{puts}

update-IsBounded :
    (v : View) (path : Bytes) (new : Option Bytes)
    → IsBounded v
    → ((content : Bytes) → new ≡ some content → length content ≤ max_file_size)
    → IsBounded (record v { remote = update v.remote path new })
update-IsBounded v path new h k other content e = elim (Bool-cases (bytes_eq path other)) [
  | inl same ↦ k content (rw same at e)
  | inr differ ↦ h other content (rw differ at e)
]

store-IsBounded :
    (v : View) (path : Bytes) (o : Option Bytes) → IsBounded v → IsBounded (store path o v)
store-IsBounded v path none h = h
store-IsBounded v path (some content) h = elim (Bool-cases (ltb max_file_size (length content))) [
  | inl large ↦ rw large h
  | inr fits ↦ rw fits (
      update-IsBounded v _ (some content) h (λ content' e.
        let small : length content ≤ max_file_size = ground arith in
        omega (arith, small, ap (length {A = ℕ}) (some-inj e))))
]

receive-IsBounded :
    (v : View) (name : Bytes) (o : Option Bytes) → IsBounded v → IsBounded (receive name o v)
receive-IsBounded v name none h = h
receive-IsBounded v name (some content) h = h

perform-IsBounded : (r : Request) (v : View) → IsBounded v → IsBounded (perform r v)
unfolding perform
perform-IsBounded (get name) v h = receive-IsBounded v name (v.remote (full_path name)) h
perform-IsBounded (put path) v h = store-IsBounded v path (v.local path) h
perform-IsBounded (delete name) v h =
    update-IsBounded v (full_path name) none h (λ content e. ground (arith, e))

IsBounded-moved : {v w : View} → v ≡ w → IsBounded w → IsBounded v
IsBounded-moved e h = subst⁻¹ IsBounded e h

module _ {S C F : Type 0} (os : Socket S) (net : Stream os) (lib : Openssl C)
    {InSync : C → C → Type 0} (sound : IsSound lib InSync) (files : FileSystem F)
    (disk : IsDisk files) (local : Local F) (own : IsDisk local.files)
    (regular : (f : F) (path content : Bytes)
      → local.files.read f path ≡ some content
      → (local.stat f path ≡ true) × (local.reopen f path ≡ some content))
    (deliver : Bytes → S → S) (delivers : Delivers net deliver) where
  performed :
      (r : Request) (p : Program S C F) (c : Client S C F)
      → InSession InSync p c
      → IsRequest r
      → IsBounded (view os net lib InSync files local deliver p c)
      → p.link.crypto.sequence_number_o + cost < u32_mod
      → c.link.crypto.sequence_number_o + cost < u32_mod
      → Performed os net lib sound files disk local own regular deliver delivers r p c
  performed (get []) p c k h bounded room_up room_down = absurd h
  performed (get (x ∷ name)) p c k h bounded room_up room_down =
      elim (Option-cases (files.read c.fs (full_path (x ∷ name)))) [
        | inl missing ↦
            missed os net lib sound files disk local own regular deliver delivers p c x name k h
              room_up room_down missing
        | inr (content, found) ↦
            got os net lib sound files disk local own regular deliver delivers p c x name content k
              h (bounded (full_path (x ∷ name)) content found) room_up room_down found
              (disk.tells c.fs (full_path (x ∷ name)) content found)
      ]
  performed (put []) p c k h bounded room_up room_down = absurd h
  performed (put (a ∷ path)) p c k h bounded room_up room_down =
      puts os net lib sound files disk local own regular deliver delivers p c a path k h room_up
        room_down
  performed (delete []) p c k h bounded room_up room_down = absurd h
  performed (delete (x ∷ name)) p c k h bounded room_up room_down =
      deleted os net lib sound files disk local own regular deliver delivers p c x name k h room_up
        room_down

  -- The ends stand in one session. Each disk is flat: every path can be opened for writing, different
  -- paths are different files, what is written is taken and the rest kept. The commands fit a buffer, no
  -- file of the server is longer than MAX_FILE_SIZE, and the sequence numbers have room for the commands. Then the
  -- two programs run the whole row of commands, each in one exchange or without any message, stand in one
  -- session again, and what can be read on both disks is what `perform_all` says.
  pub Conversation-perform_all :
      (rs : List Request) (p : Program S C F) (c : Client S C F)
      → InSession InSync p c
      → All IsRequest rs
      → IsBounded (view os net lib InSync files local deliver p c)
      → p.link.crypto.sequence_number_o + cost * length rs < u32_mod
      → c.link.crypto.sequence_number_o + cost * length rs < u32_mod
      → (p' : Program S C F) × (c' : Client S C F) × Conversation os net lib InSync files local
          deliver rs p c p' c'
        × InSession InSync p' c'
        × (view os net lib InSync files local deliver p' c'
            ≡ perform_all rs (view os net lib InSync files local deliver p c))
  unfolding perform_all
  Conversation-perform_all [] p c k h bounded room_up room_down = (p, c, done, k, refl)
  Conversation-perform_all (r ∷ rs) p c k h bounded room_up room_down =
      let d = performed r p c k h.0 bounded (omega (arith, room_up)) (omega (arith, room_down)) in
      let (p', c', talk, session, shows) =
        Conversation-perform_all rs d.program d.client d.session h.1
          (IsBounded-moved (d.shows)
            (perform-IsBounded r (view os net lib InSync files local deliver p c) bounded))
          (omega (arith, room_up, d.up)) (omega (arith, room_down, d.down)) in
      (p', c', turn d.turn talk, session, shows ∙ ap (perform_all rs) (d.shows))
