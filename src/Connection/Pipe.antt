-- ===== src/Connection/Pipe.antt =====
-- A socket in memory, for the examples: the bytes still to arrive and the bytes sent.
use cybersec_proj.Base.{
  ℕ, ◌≤◌, ◌≡◌, refl, Bytes, [], ◌++◌, some, take, drop, length, take-append, drop-append, take_all,
  drop_all,
}
use cybersec_proj.Connection.{Socket}
use cybersec_proj.Connection.Stream.{Stream}

pub record Pipe : Type 0 where
  pub incoming : Bytes
  pub outgoing : Bytes

abbrev pub pipe : Socket Pipe
pipe = record {
  send = λ p bs. (some (length bs), record p { outgoing = p.outgoing ++ bs });
  recv = λ p n. (some (take n p.incoming), record p { incoming = drop n p.incoming });
}

pub pipe_full :
    (p : Pipe) (n : ℕ) (xs ys : Bytes)
    → p.incoming ≡ xs ++ ys
    → length xs ≡ n
    → (q : Pipe) × (pipe.recv p n ≡ (some xs, q)) × (q.incoming ≡ ys) × (q.outgoing ≡ p.outgoing)
pipe_full p n xs ys e l =
    (record p { incoming = ys }, rw (← l, e, take-append, drop-append), refl, refl)

pub pipe_end :
    (p : Pipe) (n : ℕ)
    → length p.incoming ≤ n
    → (q : Pipe) × (pipe.recv p n ≡ (some p.incoming, q))
      × (q.incoming ≡ [])
      × (q.outgoing ≡ p.outgoing)
pipe_end p n h =
    (record p { incoming = [] }, rw (take_all n p.incoming h, drop_all n p.incoming h), refl, refl)

abbrev pub pipe_stream : Stream pipe
pipe_stream = record {
  inbox = λ p. p.incoming;
  outbox = λ p. p.outgoing;
  recv_full = pipe_full;
  recv_end = pipe_end;
  send_all = λ p bs. (_, refl, refl, refl);
}
