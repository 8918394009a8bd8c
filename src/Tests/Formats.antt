-- ===== src/Tests/Formats.antt =====
-- Examples for the headers, the texts on a connection and the envelope.
use cybersec_proj.Base.{◌≡◌, refl, ok, throws, fault, [], ◌∷◌, ◌++◌, arith, codes}
use cybersec_proj.Exception.{ex_too_big, ex_send}
use cybersec_proj.Word.{network32}
use cybersec_proj.Connection
use cybersec_proj.Connection.Pipe.{Pipe, pipe, pipe_stream}
use cybersec_proj.Connection.Strings.{
  text_frame, recv_string_lem, recv_string_too_big, send_string_empty,
}
use cybersec_proj.RsaSeal
use cybersec_proj.RsaSeal.{RsaSeal}
use cybersec_proj.RsaSeal.RoundTrip.{
  IsSealed, str_lem, seal_frame, from_string-str, from_string_overrun,
}
use cybersec_proj.Tests.Data.{iv, quiet, carrying, hello}

recv_string_lem_example :
    (s' : Pipe) × (Connection.recv_string pipe (carrying (text_frame hello ++ (1 ∷ [])))
      ≡ ok (hello, 9) s')
    × (s'.incoming ≡ 1 ∷ [])
    × (s'.outgoing ≡ [])
recv_string_lem_example =
    recv_string_lem pipe pipe_stream (carrying (text_frame hello ++ (1 ∷ []))) hello (1 ∷ [])
      (omega arith) (omega arith) refl

recv_string_too_big_example :
    (s' : Pipe) × (Connection.recv_string pipe (carrying (network32 5000 ++ hello))
      ≡ throws ex_too_big s')
    × (s'.incoming ≡ hello)
recv_string_too_big_example =
    recv_string_too_big pipe pipe_stream (carrying (network32 5000 ++ hello)) 5000 hello
      (omega arith) (omega arith) refl

send_string_empty_example :
    (s' : Pipe) × (Connection.send_string pipe [] quiet ≡ throws ex_send s')
    × (s'.outgoing ≡ [] ++ network32 0)
send_string_empty_example = send_string_empty pipe pipe_stream quiet

abbrev envelope : RsaSeal
envelope = record { ek = codes "k"; iv = iv; payload = hello }

envelope-IsSealed : IsSealed envelope
envelope-IsSealed = record {
  some_ek = omega arith;
  ek_fits = omega arith;
  some_payload = omega arith;
  payload_fits = omega arith;
  iv_size = refl;
}

from_string-str_example :
    RsaSeal.from_string (seal_frame envelope ++ codes "more") quiet ≡ ok envelope quiet
from_string-str_example =
    from_string-str envelope (codes "more") (seal_frame envelope) quiet envelope-IsSealed
      (str_lem envelope quiet envelope-IsSealed)

from_string_overrun_example : RsaSeal.from_string (network32 9 ++ hello) quiet ≡ fault
from_string_overrun_example = from_string_overrun 9 hello quiet (omega arith) (omega arith)
