-- ===== src/Wallet/Model.antt =====
-- wallet/domain/model.py: the entities and what their validators refuse. Identifiers are numbers
-- that the caller draws (`new_id`), and times of creation are left to the order of the tables.
use project_aria.Common.{
  ℕ, Bool, true, false, ◌&&◌, Option, none, some, leb, not, length, ◌≡◌, arith,
}
use project_aria.Common.Int.{ℤ, pos, ltb_ℤ, eqb_ℤ}
use project_aria.Common.Error.{Result, ok, value_error, guard, ◌>>◌}
use project_aria.Common.Text.{Text}

pub data TransactionType : Type 0 where
  purchase grant donation refund : TransactionType

-- `type in _CREDIT_TYPES`
abbrev pub in_credit_types : TransactionType → Bool
in_credit_types purchase = true
in_credit_types grant = true
in_credit_types donation = false
in_credit_types refund = false

-- `type in _DEBIT_TYPES`
abbrev pub in_debit_types : TransactionType → Bool
in_debit_types purchase = false
in_debit_types grant = false
in_debit_types donation = true
in_debit_types refund = true

pub record CreditTransaction : Type 0 where
  pub id : ℕ
  pub user_id : ℕ
  pub delta : ℤ
  pub type : TransactionType
  pub ref_id : Option Text
  pub idempotency_key : Option Text

-- `max_length` of an optional text
abbrev pub fits : ℕ → Option Text → Bool
fits n none = true
fits n (some t) = leb (length t) n

-- `_sign_matches_type`
unfoldable pub sign_matches_type : ℤ → TransactionType → Bool
sign_matches_type delta t =
    not (eqb_ℤ delta (pos 0))
    && not (in_credit_types t && ltb_ℤ delta (pos 0))
    && not (in_debit_types t && ltb_ℤ (pos 0) delta)

-- The constructor with its validation: `pydantic.ValidationError` is a `ValueError`.
unfoldable pub validate_transaction : CreditTransaction → Result CreditTransaction
unfolding sign_matches_type
validate_transaction e = do
  guard (fits 64 e.ref_id) value_error
  guard (fits 64 e.idempotency_key) value_error
  guard (sign_matches_type e.delta e.type) value_error
  ok e

pub record Donation : Type 0 where
  pub id : ℕ
  pub persona_id : ℕ
  pub donor_id : Option ℕ
  pub room_id : Option ℕ
  pub amount : ℤ
  pub message : Option Text

unfoldable pub validate_donation : Donation → Result Donation
validate_donation d = do
  guard (ltb_ℤ (pos 0) d.amount) value_error
  guard (fits 200 d.message) value_error
  ok d

pub delta-ne-zero :
    (delta : ℤ) (t : TransactionType)
    → sign_matches_type delta t ≡ true
    → eqb_ℤ delta (pos 0) ≡ false
unfolding sign_matches_type
delta-ne-zero delta t h = ground arith

-- The validator returns its argument or refuses it, and what it returns is signed by its type.
pub validate_transaction-ok :
    (e e' : CreditTransaction)
    → validate_transaction e ≡ ok e'
    → (e' ≡ e) × (sign_matches_type e.delta e.type ≡ true)
unfolding validate_transaction
validate_transaction-ok e e' h = ground arith

pub validate_donation-ok : (d d' : Donation) → validate_donation d ≡ ok d' → d' ≡ d
unfolding validate_donation
validate_donation-ok d d' h = ground arith
