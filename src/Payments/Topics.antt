-- ===== src/Payments/Topics.antt =====
-- apps/payments/src/payments/application/topics.py, and the two messages that
-- application/service.py builds.
use project_aria.Common.{ℕ, Option, none, some, [], ◌∷◌, ◌++◌, false}
use project_aria.Common.Int.{ℤ, pos}
use project_aria.Common.Json.{Payload, num, text}
use project_aria.Common.Text.{Text, codes}
use project_aria.Common.Uuid
use project_aria.Payments.Model.{Payment, OutboxMessage}

abbrev pub topic_purchase_confirmed : Text
topic_purchase_confirmed = codes "payments.credit-purchase-confirmed"

abbrev pub topic_refunded : Text
topic_refunded = codes "payments.credit-refunded"

abbrev pub payload_version : ℤ
payload_version = pos 1

unfoldable pub purchase_idempotency_key : Text → Text
purchase_idempotency_key payment_id = codes "payment:" ++ payment_id ++ codes ":purchase"

unfoldable pub refund_idempotency_key : Text → Text
refund_idempotency_key payment_id = codes "payment:" ++ payment_id ++ codes ":refund"

-- `_iso`: the time, or now
abbrev pub iso : Text → Option Text → Text
iso now none = now
iso now (some t) = t

abbrev pub credit_payload : Payment → Text → Text → Text → Payload
credit_payload p key time_name time =
    (codes "v", num payload_version)
    ∷ (codes "payment_id", text (Uuid.to_text p.id))
    ∷ (codes "user_id", text (Uuid.to_text p.user_id))
    ∷ (codes "credits", num p.credits)
    ∷ (codes "idempotency_key", text key)
    ∷ (time_name, text time)
    ∷ []

abbrev pub purchase_payload : Payment → Text → Payload
purchase_payload p now =
    credit_payload p (purchase_idempotency_key (Uuid.to_text p.id)) (codes "confirmed_at")
      (iso now p.confirmed_at)

abbrev pub refund_payload : Payment → Text → Payload
refund_payload p now =
    credit_payload p (refund_idempotency_key (Uuid.to_text p.id)) (codes "refunded_at")
      (iso now p.refunded_at)

-- The messages, with the identifier that the outbox row draws
abbrev pub purchase_message : ℕ → Payment → Text → OutboxMessage
purchase_message id p now = record {
  id = id;
  topic = topic_purchase_confirmed;
  key = Uuid.to_text p.user_id;
  payload = purchase_payload p now;
  published = false;
}

abbrev pub refund_message : ℕ → Payment → Text → OutboxMessage
refund_message id p now = record {
  id = id;
  topic = topic_refunded;
  key = Uuid.to_text p.user_id;
  payload = refund_payload p now;
  published = false;
}
