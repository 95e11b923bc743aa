-- ===== src/Payments/Model.antt =====
-- apps/payments/src/payments/domain/model.py: a payment, its transitions, and the messages that
-- tell of them. A time is the text that `isoformat` makes of it.
use project_aria.Common.{ℕ, Bool, true, ◌&&◌, Option, none, some, leb, length}
use project_aria.Common.Int.{ℤ, pos, ltb_ℤ}
use project_aria.Common.Error.{Result, ok, err, value_error, payment_error, guard, ◌>>◌}
use project_aria.Common.Json.{Payload}
use project_aria.Common.Text.{Text}

pub data PaymentStatus : Type 0 where
  pending confirmed failed refunded : PaymentStatus

pub record Payment : Type 0 where
  pub id : ℕ
  pub user_id : ℕ
  pub order_id : Text
  pub amount : ℤ
  pub credits : ℤ
  pub status : PaymentStatus
  pub provider_key : Option Text
  pub confirmed_at : Option Text
  pub refunded_at : Option Text

-- `min_length=1` and `max_length`
abbrev pub sized : ℕ → Text → Bool
sized n t = leb 1 (length t) && leb (length t) n

abbrev pub fits_provider : Option Text → Bool
fits_provider none = true
fits_provider (some t) = leb (length t) 128

-- The constructor with its validation
unfoldable pub validate_payment : Payment → Result Payment
validate_payment p = do
  guard (sized 64 p.order_id) value_error
  guard (ltb_ℤ (pos 0) p.amount) value_error
  guard (ltb_ℤ (pos 0) p.credits) value_error
  guard (fits_provider p.provider_key) value_error
  ok p

-- `Payment.confirm`, at a time
unfoldable pub confirm_payment : Text → Text → Payment → Result Payment
confirm_payment provider_key now p = confirm_from p.status
  where
    confirm_from : PaymentStatus → Result Payment
    confirm_from confirmed = ok p
    confirm_from pending =
        ok (record p {
          status = confirmed;
          provider_key = some provider_key;
          confirmed_at = some now;
        })
    confirm_from failed = err payment_error
    confirm_from refunded = err payment_error

-- `Payment.fail`
unfoldable pub fail_payment : Payment → Result Payment
fail_payment p = fail_from p.status
  where
    fail_from : PaymentStatus → Result Payment
    fail_from pending = ok (record p { status = failed })
    fail_from confirmed = err payment_error
    fail_from failed = err payment_error
    fail_from refunded = err payment_error

-- `Payment.refund`, at a time
unfoldable pub refund_payment : Text → Payment → Result Payment
refund_payment now p = refund_from p.status
  where
    refund_from : PaymentStatus → Result Payment
    refund_from refunded = ok p
    refund_from confirmed = ok (record p { status = refunded; refunded_at = some now })
    refund_from pending = err payment_error
    refund_from failed = err payment_error

pub record OutboxMessage : Type 0 where
  pub id : ℕ
  pub topic : Text
  pub key : Text
  pub payload : Payload
  pub published : Bool

unfoldable pub validate_message : OutboxMessage → Result OutboxMessage
validate_message m = do
  guard (sized 200 m.topic) value_error
  guard (sized 200 m.key) value_error
  ok m
