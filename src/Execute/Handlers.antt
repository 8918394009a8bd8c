-- ===== src/Execute/Handlers.antt =====
-- A `try` changes no state: what holds of the state at the end of its body holds after its clauses.
use cybersec_proj.Base.{inl, inr, List, Outcome, ok, throws, fault, Ends, Option-cases}
use cybersec_proj.Exception.{Ex, first_handler}
use cybersec_proj.Execute.{handled}

pub handled-Ends :
    {S : Type 0} (P : S → Type 0) (cs : List Ex) (o : Outcome S (Unit {0}))
    → Ends P o
    → Ends P (handled cs o)
handled-Ends P cs (ok tt s) h = h
handled-Ends P cs (throws e s) h = elim (Option-cases (first_handler cs e)) [
  | inl q ↦ rw (q, handled) h
  | inr (c, q) ↦ rw (q, handled) h
]
handled-Ends P cs fault h = tt
