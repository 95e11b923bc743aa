-- ===== src/Payments/Contract.antt =====
-- The contract between the two services (docs/events.md): the payments service's payload, as
-- wallet/application/credit_events.py reads it, and keys that name one payment and one purpose.
use project_aria.Common.{
  ℕ, ◌≡◌, ◌≤◌, refl, ap, sym, ◌∙◌, Bool, true, false, [], ◌∷◌, ◌++◌, arith, length, length-append,
}
use project_aria.Common.Int.{pos, ◌<ℤ◌}
use project_aria.Common.Error.{ok}
use project_aria.Common.Json.{get, item, to_int, to_uuid, to_str}
use project_aria.Common.Text.{Text, codes, text_eq}
use project_aria.Common.Uuid
use project_aria.Common.Uuid.{IsUuid}
use project_aria.Wallet.Events.{
  CreditEvent, from_payload, credit_purchase_confirmed, credit_refunded,
}
use project_aria.Wallet.Granting.{IsSound}
use project_aria.Payments.Model.{
  Payment, PaymentStatus, pending, confirmed, failed, refunded, OutboxMessage,
}
use project_aria.Payments.Topics.{
  purchase_idempotency_key, refund_idempotency_key, credit_payload, purchase_message,
  refund_message,
}

-- What a message tells of a payment
pub data Purpose : Type 0 where
  grants takes_back : Purpose

abbrev pub topic_of : Purpose → Text
topic_of grants = credit_purchase_confirmed
topic_of takes_back = credit_refunded

abbrev pub key_of : Purpose → ℕ → Text
key_of grants id = purchase_idempotency_key (Uuid.to_text id)
key_of takes_back id = refund_idempotency_key (Uuid.to_text id)

abbrev pub event_of : Purpose → Payment → CreditEvent
event_of k p = record {
  payment_id = p.id;
  user_id = p.user_id;
  credits = p.credits;
  idempotency_key = key_of k p.id;
}

abbrev pub message_of : Purpose → ℕ → Payment → Text → OutboxMessage
message_of grants = purchase_message
message_of takes_back = refund_message

-- The statuses that owe the wallet a message of this purpose
abbrev pub owes : Purpose → PaymentStatus → Bool
owes grants pending = false
owes grants confirmed = true
owes grants failed = false
owes grants refunded = true
owes takes_back refunded = true
owes takes_back _ = false

-- A payment that the database can hold
pub record IsBacked (p : Payment) : Type 0 where
  pub id_IsUuid : IsUuid p.id
  pub user_IsUuid : IsUuid p.user_id
  pub credits : pos 0 <ℤ p.credits

from_payload-credit_payload :
    (p : Payment) (key name time : Text)
    → IsBacked p
    → text_eq name (codes "v") ≡ false
    → from_payload (credit_payload p key name time)
      ≡ ok (record {
        payment_id = p.id;
        user_id = p.user_id;
        credits = p.credits;
        idempotency_key = key;
      })
unfolding from_payload get item to_int to_uuid to_str text_eq
from_payload-credit_payload p key name time b other = ground (
  arith,
  b.credits,
  Uuid.parse-to_text p.id b.id_IsUuid,
  Uuid.parse-to_text p.user_id b.user_IsUuid,
)

-- The wallet reads every message that the payments service writes of a payment with UUIDs and
-- positive credits as the event that was meant: that payment, user and credits, under the key of
-- its purpose.
pub from_payload-message_of :
    (k : Purpose) (id : ℕ) (p : Payment) (now : Text)
    → IsBacked p
    → from_payload (message_of k id p now).payload ≡ ok (event_of k p)
unfolding text_eq
from_payload-message_of grants id p now b =
    from_payload-credit_payload p (key_of grants p.id) (codes "confirmed_at") _ b refl
from_payload-message_of takes_back id p now b =
    from_payload-credit_payload p (key_of takes_back p.id) (codes "refunded_at") _ b refl

pub topic-message_of :
    (k : Purpose) (id : ℕ) (p : Payment) (now : Text) → (message_of k id p now).topic ≡ topic_of k
topic-message_of grants id p now = refl
topic-message_of takes_back id p now = refl

length-key_of : (k : Purpose) (id : ℕ) → length (key_of k id) ≤ 64
unfolding purchase_idempotency_key refund_idempotency_key
length-key_of grants id =
    omega (arith, length-append (Uuid.to_text id) (codes ":purchase"), Uuid.length-to_text id)
length-key_of takes_back id =
    omega (arith, length-append (Uuid.to_text id) (codes ":refund"), Uuid.length-to_text id)

pub event_of-IsSound : (k : Purpose) (p : Payment) → IsBacked p → IsSound (event_of k p)
event_of-IsSound k p b = record { positive = b.credits; short_key = length-key_of k p.id }

abbrev head_of : ℕ → Text → ℕ
head_of d [] = d
head_of d (c ∷ t) = c

abbrev tail_of : Text → Text
tail_of [] = []
tail_of (c ∷ t) = t

append-cancel : (s t u v : Text) → length s ≡ length t → s ++ u ≡ t ++ v → (s ≡ t) × (u ≡ v)
append-cancel [] [] u v h e = (refl, e)
append-cancel [] (d ∷ t) u v h e = (ground arith, ground arith)
append-cancel (c ∷ s) [] u v h e = (ground arith, ground arith)
append-cancel (c ∷ s) (d ∷ t) u v h e =
    let (same, rest) = append-cancel s t u v (omega arith) (ap tail_of e) in
    let first : c ≡ d = ap (head_of 0) e in (rw (first, same), rest)

abbrev suffix_of : Purpose → Text
suffix_of grants = codes ":purchase"
suffix_of takes_back = codes ":refund"

key_of-suffix_of :
    (k : Purpose) (id : ℕ) → key_of k id ≡ codes "payment:" ++ (Uuid.to_text id ++ suffix_of k)
unfolding purchase_idempotency_key refund_idempotency_key
key_of-suffix_of grants id = refl
key_of-suffix_of takes_back id = refl

suffix_of-injective : (k l : Purpose) → suffix_of k ≡ suffix_of l → k ≡ l
suffix_of-injective grants grants e = refl
suffix_of-injective grants takes_back e = cc
suffix_of-injective takes_back grants e = cc
suffix_of-injective takes_back takes_back e = refl

-- Two idempotency keys are equal only for the same purpose and the same payment.
pub key_of-injective :
    (k l : Purpose) (i j : ℕ) → IsUuid i → IsUuid j → key_of k i ≡ key_of l j → (k ≡ l) × (i ≡ j)
key_of-injective k l i j hi hj e =
    let whole = sym (key_of-suffix_of k i) ∙ e ∙ key_of-suffix_of l j in
    let (_, body) = append-cancel (codes "payment:") (codes "payment:") _ _ refl whole in
    let (ids, suffixes) =
      append-cancel (Uuid.to_text i) (Uuid.to_text j) (suffix_of k) (suffix_of l)
        (Uuid.length-to_text i ∙ sym (Uuid.length-to_text j)) body in
    (suffix_of-injective k l suffixes, Uuid.to_text_injective i j hi hj ids)
