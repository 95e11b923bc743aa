-- ===== src/Wallet/Events.antt =====
-- wallet/application/credit_events.py: the payload that the payments service sends, and the two
-- ways to apply it.
use project_aria.Common.{ℕ, some, not}
use project_aria.Common.Int.{ℤ, pos, neg, leb_ℤ}
use project_aria.Common.Error.{Result, ok, value_error, guard, ◌>>=◌, ◌>>◌}
use project_aria.Common.Json.{
  Payload, num, get, item, or_default, equals_int, to_int, to_uuid, to_str,
}
use project_aria.Common.Text.{Text, codes}
use project_aria.Common.Uuid
use project_aria.Wallet.Model.{purchase, refund}
use project_aria.Wallet.Repository.Tables.{Db}
use project_aria.Wallet.Service.{grant}

abbrev pub credit_purchase_confirmed : Text
credit_purchase_confirmed = codes "payments.credit-purchase-confirmed"

abbrev pub credit_refunded : Text
credit_refunded = codes "payments.credit-refunded"

abbrev pub supported_version : ℤ
supported_version = pos 1

pub record CreditEvent : Type 0 where
  pub payment_id : ℕ
  pub user_id : ℕ
  pub credits : ℤ
  pub idempotency_key : Text

-- `CreditEvent.from_payload`
unfoldable pub from_payload : Payload → Result CreditEvent
from_payload p = do
  guard (equals_int (or_default (num (pos 1)) (get p (codes "v"))) supported_version) value_error
  credits ← item p (codes "credits") >>= to_int
  guard (not (leb_ℤ credits (pos 0))) value_error
  payment_id ← item p (codes "payment_id") >>= to_uuid
  user_id ← item p (codes "user_id") >>= to_uuid
  key ← item p (codes "idempotency_key")
  ok (record {
    payment_id = payment_id;
    user_id = user_id;
    credits = credits;
    idempotency_key = to_str key;
  })

-- `CreditEventService.purchase_confirmed`
unfoldable pub purchase_confirmed : ℕ → CreditEvent → Db → Result ℤ × Db
purchase_confirmed id e =
    grant id e.user_id e.credits (some e.idempotency_key) (some (Uuid.to_text e.payment_id))
      purchase

-- `CreditEventService.refunded`
unfoldable pub refunded : ℕ → CreditEvent → Db → Result ℤ × Db
refunded id e =
    grant id e.user_id (neg e.credits) (some e.idempotency_key) (some (Uuid.to_text e.payment_id))
      refund
