-- ===== src/Payments/Service.antt =====
-- apps/payments/src/payments/application/service.py. The gateway is a parameter: what it answers
-- to the calls of one request. A request names the time and the identifiers that it draws.
use project_aria.Common.{ℕ, Option, none, some}
use project_aria.Common.Int.{ℤ, eqb_ℤ}
use project_aria.Common.Error.{
  Result, ok, err, payment_not_found, amount_mismatch, payment_error, guard, ◌>>=◌, ◌>>◌,
}
use project_aria.Common.Text.{Text}
use project_aria.Payments.Model.{
  Payment, OutboxMessage, pending, validate_payment, confirm_payment, refund_payment,
  validate_message,
}
use project_aria.Payments.Topics.{purchase_message, refund_message}
use project_aria.Payments.Repository.{Db, add, get_by_order_id, save_with_outbox}

-- application/port/out/gateway.py: `Approval` and `PaymentGatewayPort`
pub record Approval : Type 0 where
  pub provider_key : Text
  pub amount : ℤ

pub record Gateway : Type 0 where
  pub confirm : Text → Text → ℤ → Result Approval
  pub cancel : Text → Text → Result (Unit {0})

abbrev found : Option Payment → Result Payment
found none = err payment_not_found
found (some p) = ok p

-- `_require`
unfoldable pub require : Text → Db → Result Payment
require order db = get_by_order_id order db >>= found

-- What a request leaves: an exception leaves the tables as they were.
abbrev pub commit {ℓ} : {A : Type ℓ} → Db → Result (A × Db) → Result A × Db
commit db (ok (a, db')) = (ok a, db')
commit db (err x) = (err x, db)

-- The payment that `prepare` constructs
abbrev pub new_payment : (id user_id : ℕ) → Text → (amount credits : ℤ) → Payment
new_payment id user_id order amount credits = record {
  id = id;
  user_id = user_id;
  order_id = order;
  amount = amount;
  credits = credits;
  status = pending;
  provider_key = none;
  confirmed_at = none;
  refunded_at = none;
}

-- `PaymentService.prepare`
unfoldable pub prepare : (id user_id : ℕ) → Text → (amount credits : ℤ) → Db → Result Payment × Db
prepare id user_id order amount credits db = commit db (do
  payment ← validate_payment (new_payment id user_id order amount credits)
  db' ← add payment db
  ok (payment, db'))

-- The end of `confirm` and of `refund`: the message that they build, and both rows saved
unfoldable pub record_payment : Payment → OutboxMessage → Db → Result (Payment × Db)
record_payment p m db = do
  message ← validate_message m
  db' ← save_with_outbox p message db
  ok (p, db')

-- `PaymentService.confirm` after the gateway has answered, on the payment read before
unfoldable pub finish_confirm : Payment → Approval → Text → ℕ → Db → Result (Payment × Db)
finish_confirm payment approval now id db = do
  guard (eqb_ℤ approval.amount payment.amount) amount_mismatch
  confirmed ← confirm_payment approval.provider_key now payment
  record_payment confirmed (purchase_message id confirmed now) db

-- `PaymentService.confirm`
unfoldable pub confirm : Gateway → Text → ℕ → Text → Text → Db → Result Payment × Db
confirm gateway now id order provider_key db = commit db (do
  payment ← require order db
  approval ← gateway.confirm order provider_key payment.amount
  finish_confirm payment approval now id db)

abbrev pub approved : Option Text → Result Text
approved none = err payment_error
approved (some key) = ok key

-- `PaymentService.refund` after the gateway has taken the payment back
unfoldable pub finish_refund : Payment → Text → ℕ → Db → Result (Payment × Db)
finish_refund payment now id db = do
  refunded ← refund_payment now payment
  record_payment refunded (refund_message id refunded now) db

-- `PaymentService.refund`
unfoldable pub refund : Gateway → Text → ℕ → Text → Text → Db → Result Payment × Db
refund gateway now id order reason db = commit db (do
  payment ← require order db
  provider_key ← approved payment.provider_key
  gateway.cancel provider_key reason
  finish_refund payment now id db)

-- adapter/outbound/gateway/stub.py: approves everything
abbrev pub stub_gateway : Gateway
stub_gateway = record {
  confirm = λ order key amount. ok (record { provider_key = key; amount = amount });
  cancel = λ key reason. ok tt;
}
