-- ===== src/Base/Effects.antt =====
-- C++ code as functions from a state to an outcome.
use mathlib.Core.Path.{◌≡◌, refl}
use mathlib.Core.Bool.{Bool, true, false}
use mathlib.Core.Option.{Option, none, some}
use cybersec_proj.Base.Tests.{if◌then◌else◌}
use cybersec_proj.Exception.{Ex}

-- `ok` is a normal return. `throws` keeps what the code changed before the exception. `fault` is a
-- run that the language does not define (a read or write outside an object, a read of memory that
-- was never written) or that an `assert` stops.
pub data Outcome (S A : Type 0) : Type 0 where
  ok : A → S → Outcome S A
  throws : Ex → S → Outcome S A
  fault : Outcome S A

abbrev pub M : Type 0 → Type 0 → Type 0
M S A = S → Outcome S A

abbrev pub bind : {S A B : Type 0} → Outcome S A → (A → M S B) → Outcome S B
bind (ok a s) f = f a s
bind (throws e s) f = throws e s
bind fault f = fault

infixl 5 ◌>>=◌ ◌>>◌
abbrev pub ◌>>=◌ : {S A B : Type 0} → M S A → (A → M S B) → M S B
◌>>=◌ m f s = bind (m s) f

abbrev pub ◌>>◌ : {S B : Type 0} → M S (Unit {0}) → M S B → M S B
m >> k = m >>= λ _. k

abbrev pub return : {S A : Type 0} → A → M S A
return a s = ok a s

abbrev pub throw : {S A : Type 0} → Ex → M S A
throw e s = throws e s

abbrev pub undefined : {S A : Type 0} → M S A
undefined s = fault

abbrev pub gets : {S A : Type 0} → (S → A) → M S A
gets f s = ok (f s) s

abbrev pub modify : {S : Type 0} → (S → S) → M S (Unit {0})
modify f s = ok tt (f s)

-- `if (! test) throw e;`
abbrev pub check : {S : Type 0} → Bool → Ex → M S (Unit {0})
check true e s = ok tt s
check false e s = throws e s

-- What must hold for the run to be defined.
abbrev pub defined : {S : Type 0} → Bool → M S (Unit {0})
defined true s = ok tt s
defined false s = fault

-- A call of a library that answers `none` on failure, turned into an exception.
abbrev pub or_throw : {S A : Type 0} → Option A → Ex → M S A
or_throw none e s = throws e s
or_throw (some a) e s = ok a s

-- A read that answers `none` outside its buffer.
abbrev pub or_fault : {S A : Type 0} → Option A → M S A
or_fault none s = fault
or_fault (some a) s = ok a s

-- Code over a part of the state, run on the whole.
abbrev pub put_back : {S T A : Type 0} → (T → S) → Outcome T A → Outcome S A
put_back set (ok a t) = ok a (set t)
put_back set (throws e t) = throws e (set t)
put_back set fault = fault

abbrev pub zoom : {S T A : Type 0} → (S → T) → (T → S → S) → M T A → M S A
zoom get set m s = put_back (λ t. set t s) (m (get s))

pub bind_assoc :
    {S A B D : Type 0} (o : Outcome S A) (f : A → M S B) (g : B → M S D)
    → bind o (λ a s. bind (f a s) g) ≡ bind (bind o f) g
bind_assoc (ok a s) f g = refl
bind_assoc (throws e s) f g = refl
bind_assoc fault f g = refl

pub bind-ok : {S A : Type 0} (o : Outcome S A) → bind o (λ a s. ok a s) ≡ o
bind-ok (ok a s) = refl
bind-ok (throws e s) = refl
bind-ok fault = refl

-- A run that returned normally had a first part that returned normally.
pub bind-eq-ok :
    {S A B : Type 0} (o : Outcome S A) (f : A → M S B) {b : B} {s' : S}
    → bind o f ≡ ok b s'
    → (a : A) × (s : S) × (o ≡ ok a s) × (f a s ≡ ok b s')
bind-eq-ok (ok a s) f h = (a, s, refl, h)
bind-eq-ok (throws e s) f h = cc
bind-eq-ok fault f h = cc

pub zoom-eq-ok :
    {S T A B : Type 0} (set : T → S) (o : Outcome T A) (f : A → M S B) {b : B} {s' : S}
    → bind (put_back set o) f ≡ ok b s'
    → (a : A) × (t : T) × (o ≡ ok a t) × (f a (set t) ≡ ok b s')
zoom-eq-ok set (ok a t) f h = (a, t, refl, h)
zoom-eq-ok set (throws e t) f h = cc
zoom-eq-ok set fault f h = cc

-- `P` holds of the state at the end of a run, however it ends, if the run is defined.
abbrev pub Ends : {S A : Type 0} → (S → Type 0) → Outcome S A → Type 0
Ends P (ok a s) = P s
Ends P (throws e s) = P s
Ends P fault = Unit {0}

pub Ends-bind :
    {S A B : Type 0} (P : S → Type 0) (o : Outcome S A) (f : A → M S B)
    → Ends P o
    → ((a : A) (s : S) → P s → Ends P (f a s))
    → Ends P (bind o f)
Ends-bind P (ok a s) f h k = k a s h
Ends-bind P (throws e s) f h k = h
Ends-bind P fault f h k = tt

pub Ends-put_back :
    {S T A : Type 0} (P : S → Type 0) (set : T → S) (o : Outcome T A)
    → ((t : T) → P (set t))
    → Ends P (put_back set o)
Ends-put_back P set (ok a t) h = h t
Ends-put_back P set (throws e t) h = h t
Ends-put_back P set fault h = tt

pub Ends-if :
    {S A : Type 0} (P : S → Type 0) (b : Bool) (m k : M S A) (s : S)
    → Ends P (m s)
    → Ends P (k s)
    → Ends P ((if b then m else k) s)
Ends-if P true m k s h h' = h
Ends-if P false m k s h h' = h'

pub Ends-defined : {S : Type 0} (P : S → Type 0) (b : Bool) (s : S) → P s → Ends P (defined b s)
Ends-defined P true s h = h
Ends-defined P false s h = tt

-- The value and the state of a normal return.
pub ok-inj : {S A : Type 0} {a b : A} {s t : S} → ok a s ≡ ok b t → (a ≡ b) × (s ≡ t)
ok-inj h = (cc, cc)

pub Ends-put_back_inv :
    {S T A : Type 0} (P : S → Type 0) (set : T → S) (o : Outcome T A)
    → Ends (λ t. P (set t)) o
    → Ends P (put_back set o)
Ends-put_back_inv P set (ok a t) h = h
Ends-put_back_inv P set (throws e t) h = h
Ends-put_back_inv P set fault h = tt
