-- ===== src/Common/Error.antt =====
-- Exceptions of the two services, from the classes that their `except` clauses tell apart, and
-- results of code that may raise. Messages are left out: no code reads them.
use mathlib.Core.Path.{◌≡◌, refl, ap}
use mathlib.Core.Logic.{◌⊎◌, inl, inr}
use mathlib.Core.Bool.{Bool, true, false}

-- Python's own, SQLAlchemy's, and those of common/errors.py with their subclasses. Pydantic's
-- ValidationError and UnsupportedSchemaVersion are subclasses of ValueError. `external` is any
-- exception of a driver or a client library (redis, aiokafka, openai, a database that is gone).
pub data Error : Type 0 where
  value_error key_error type_error attribute_error lookup_error : Error
  integrity_error external : Error
  not_found room_closed conflict insufficient_credit invalid_room_transition already_live : Error
  permission_denied unauthorized validation_error : Error
  payment_not_found amount_mismatch payment_error gateway_error : Error

-- `isinstance(exc, ConflictError)`
abbrev pub is_conflict : Error → Bool
is_conflict conflict = true
is_conflict insufficient_credit = true
is_conflict invalid_room_transition = true
is_conflict already_live = true
is_conflict _ = false

-- `except (ValueError, KeyError, TypeError)`
abbrev pub is_unreadable : Error → Bool
is_unreadable value_error = true
is_unreadable key_error = true
is_unreadable type_error = true
is_unreadable _ = false

-- What a call returns or raises
pub data Result {ℓ} (A : Type ℓ) : Type ℓ where
  ok : A → Result A
  err : Error → Result A

-- `if not condition: raise x`
abbrev pub guard : Bool → Error → Result (Unit {0})
guard false x = err x
guard true x = ok tt

module _ {ℓ κ} {A : Type ℓ} {B : Type κ} where
  infixl 5 ◌>>=◌
  abbrev pub ◌>>=◌ : Result A → (A → Result B) → Result B
  err x >>= rest = err x
  ok a >>= rest = rest a

infixl 5 ◌>>◌
abbrev pub ◌>>◌ {κ} : {B : Type κ} → Result (Unit {0}) → Result B → Result B
first >> rest = first >>= λ _. rest

pub Result-cases {ℓ} :
    {A : Type ℓ} (r : Result A) → ((a : A) × (r ≡ ok a)) ⊎ ((x : Error) × (r ≡ err x))
Result-cases (ok a) = inl (a, refl)
Result-cases (err x) = inr (x, refl)

raised {ℓ} : {A : Type ℓ} → Error → Result A → Error
raised d (ok a) = d
raised d (err x) = x

pub err-injective {ℓ} : {A : Type ℓ} {x y : Error} → ◌≡◌ {A = Result A} (err x) (err y) → x ≡ y
unfolding raised
err-injective {x} h = ap (raised x) h

-- How a call of another system ends: it returns; it fails, and nothing was done; or what it asked for
-- was done, but its answer was lost, so that it raises.
pub data Call : Type 0 where
  returns : Call
  fails loses : Error → Call

abbrev pub result_of : Call → Result (Unit {0})
result_of returns = ok tt
result_of (fails x) = err x
result_of (loses x) = err x

abbrev pub is_done : Call → Bool
is_done returns = true
is_done (fails x) = false
is_done (loses x) = true

abbrev pub is_returned : Call → Bool
is_returned returns = true
is_returned (fails x) = false
is_returned (loses x) = false

abbrev pub is_lost : Call → Bool
is_lost returns = false
is_lost (fails x) = false
is_lost (loses x) = true
