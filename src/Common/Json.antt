-- ===== src/Common/Json.antt =====
-- Payloads of messages: dictionaries of JSON values, and what Python does with a value that code
-- converts. Numbers are the integers.
use mathlib.Core.Bool.{Bool, true, false}
use mathlib.Core.Option.{Option, none, some}
use mathlib.Core.List.{List, [], ◌∷◌}
use project_aria.Common.Error.{Result, ok, err, value_error, key_error, type_error, attribute_error}
use project_aria.Common.Int.{ℤ, pos, negsuc, eqb_ℤ}
use project_aria.Common.Tests.{if◌then◌else◌}
use project_aria.Common.Text.{Text, codes, text_eq, decimal, int_of_text}
use project_aria.Common.Uuid
use Prim.Native.Nat.{ℕ, suc}

-- `other` is a list or an object, which carries its `repr`.
pub data Json : Type 0 where
  null : Json
  flag : Bool → Json
  num : ℤ → Json
  text : Text → Json
  other : Text → Json

abbrev pub Payload : Type 0
Payload = List (Text × Json)

-- `payload.get(key)`
unfoldable pub get : Payload → Text → Option Json
unfolding text_eq
get [] k = none
get ((j, v) ∷ p) k = if text_eq j k then some v else get p k

abbrev or_missing : Option Json → Result Json
or_missing none = err key_error
or_missing (some v) = ok v

-- `payload[key]`
unfoldable pub item : Payload → Text → Result Json
unfolding get
item p k = or_missing (get p k)

abbrev pub or_default : Json → Option Json → Json
or_default d none = d
or_default d (some v) = v

-- `value == n`, for an integer `n`. `True` equals 1 and `False` equals 0.
abbrev pub equals_int : Json → ℤ → Bool
equals_int null n = false
equals_int (flag true) n = eqb_ℤ (pos 1) n
equals_int (flag false) n = eqb_ℤ (pos 0) n
equals_int (num m) n = eqb_ℤ m n
equals_int (text t) n = false
equals_int (other t) n = false

abbrev or_value_error {ℓ} : {A : Type ℓ} → Option A → Result A
or_value_error none = err value_error
or_value_error (some a) = ok a

-- `int(value)`
unfoldable pub to_int : Json → Result ℤ
unfolding int_of_text
to_int null = err type_error
to_int (flag true) = ok (pos 1)
to_int (flag false) = ok (pos 0)
to_int (num n) = ok n
to_int (text t) = or_value_error (int_of_text t)
to_int (other t) = err type_error

-- `UUID(value)`. The constructor refuses `None` with a `TypeError`; of any other value that is no
-- string it calls `replace`, which raises an `AttributeError`.
unfoldable pub to_uuid : Json → Result ℕ
unfolding Uuid.parse
to_uuid null = err type_error
to_uuid (flag b) = err attribute_error
to_uuid (num n) = err attribute_error
to_uuid (text t) = or_value_error (Uuid.parse t)
to_uuid (other t) = err attribute_error

-- `str(value)`
unfoldable pub to_str : Json → Text
unfolding decimal
to_str null = codes "None"
to_str (flag true) = codes "True"
to_str (flag false) = codes "False"
to_str (num (pos n)) = decimal n
to_str (num (negsuc n)) = b'-' ∷ decimal (suc n)
to_str (text t) = t
to_str (other r) = r
