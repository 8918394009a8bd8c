-- ===== src/Exception.antt =====
-- src/common/exception.h: the tree of exception classes, by the parent of each class, and two classes of
-- the standard library outside it. The text that an exception carries is only printed, and is not
-- modelled.
use Prim.Native.Nat.{ℕ, zero, suc, compare, Ordering}
use mathlib.Core.Bool.{Bool, true, false}
use mathlib.Core.List.{List, [], ◌∷◌}
use mathlib.Core.Option.{Option, none, some}

pub data Ex : Type 0 where
  ex : Ex
  ex_network ex_bind ex_send ex_recv ex_listen ex_socket ex_connect ex_port : Ex
  ex_user_input : Ex
  ex_crypto ex_crypto_computation ex_bad_seq_num ex_bad_hmac ex_bad_protocol : Ex
  ex_certificate ex_random ex_signature ex_seq_num_overflow : Ex
  ex_protocol ex_too_big ex_nonce : Ex
  bad_alloc system_error : Ex

-- The class that a class derives from.
pub parent : Ex → Option Ex
parent ex = none
parent ex_network = some ex
parent ex_bind = some ex_network
parent ex_send = some ex_network
parent ex_recv = some ex_network
parent ex_listen = some ex_network
parent ex_socket = some ex_network
parent ex_connect = some ex_network
parent ex_port = some ex_network
parent ex_user_input = some ex
parent ex_crypto = some ex
parent ex_crypto_computation = some ex_crypto
parent ex_bad_seq_num = some ex_crypto
parent ex_bad_hmac = some ex_crypto
parent ex_bad_protocol = some ex_crypto
parent ex_certificate = some ex_crypto
parent ex_random = some ex_crypto
parent ex_signature = some ex_crypto
parent ex_seq_num_overflow = some ex_crypto
parent ex_protocol = some ex
parent ex_too_big = some ex_protocol
parent ex_nonce = some ex_protocol
parent bad_alloc = none
parent system_error = none

pub Ex-discrete : Discrete Ex
Ex-discrete = hlevel

-- A number for each class, to compare classes by.
pub class_id : Ex → ℕ
class_id ex = 0
class_id ex_network = 1
class_id ex_bind = 2
class_id ex_send = 3
class_id ex_recv = 4
class_id ex_listen = 5
class_id ex_socket = 6
class_id ex_connect = 7
class_id ex_port = 8
class_id ex_user_input = 9
class_id ex_crypto = 10
class_id ex_crypto_computation = 11
class_id ex_bad_seq_num = 12
class_id ex_bad_hmac = 13
class_id ex_bad_protocol = 14
class_id ex_certificate = 15
class_id ex_random = 16
class_id ex_signature = 17
class_id ex_seq_num_overflow = 18
class_id ex_protocol = 19
class_id ex_too_big = 20
class_id ex_nonce = 21
class_id bad_alloc = 22
class_id system_error = 23

same_class : Ex → Ex → Bool
same_class a b = elim (compare (class_id a) (class_id b)) [ Ordering.eq ↦ true | _ ↦ false ]

-- Whether `catch (c)` takes an exception whose class is, or derives in `depth` steps at most from, `c`.
derives : ℕ → Ex → Ex → Bool
derives zero e c = same_class e c
derives (suc depth) e c = elim (same_class e c) [
  | true ↦ true
  | false ↦ elim (parent e) [ none ↦ false | some p ↦ derives depth p c ]
]

-- The tree is two steps deep.
unfoldable pub catches : Ex → Ex → Bool
unfolding derives same_class class_id parent
catches c e = derives 2 e c

-- The clause of a `try` that handles an exception: the first that takes it, `none` if none does.
unfoldable pub first_handler : List Ex → Ex → Option Ex
unfolding catches
first_handler [] e = none
first_handler (c ∷ cs) e =
    let rest = first_handler cs e in elim (catches c e) [ true ↦ some c | false ↦ rest ]
