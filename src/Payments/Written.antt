-- ===== src/Payments/Written.antt =====
-- What the end of `confirm` and of `refund` writes.
use project_aria.Common.{
  ℕ, ◌≡◌, ◌⊎◌, refl, ap, sym, ◌∙◌, subst, false, arith, Memᴰ, Option-cases, inl, inr,
}
use project_aria.Common.Error.{Result, ok, err, Result-cases}
use project_aria.Common.Text.{Text}
use project_aria.Payments.Model.{
  Payment, PaymentStatus, pending, confirmed, refunded, OutboxMessage, validate_payment,
  confirm_payment, refund_payment, validate_message,
}
use project_aria.Payments.Topics.{purchase_message, refund_message}
use project_aria.Payments.Repository.{
  Db, find_payment, message_id_used, update_payment, insert_message, save_with_outbox,
  get_by_order_id,
}
use project_aria.Payments.Service.{require, record_payment}
use project_aria.Payments.Contract.{Purpose, grants, takes_back, IsBacked, from_payload-message_of}
use project_aria.Payments.Explained.{IsSame, find_payment-Memᴰ}
use project_aria.Payments.Saving.{IsStep}

pub confirm_payment-ok :
    (key now : Text) (p q : Payment)
    → confirm_payment key now p ≡ ok q
    → IsSame p q × (q.status ≡ confirmed) × ((p.status ≡ pending) ⊎ (p.status ≡ confirmed))
unfolding confirm_payment
confirm_payment-ok key now p q h = ground arith

pub refund_payment-ok :
    (now : Text) (p q : Payment)
    → refund_payment now p ≡ ok q
    → IsSame p q × (q.status ≡ refunded) × ((p.status ≡ confirmed) ⊎ (p.status ≡ refunded))
unfolding refund_payment
refund_payment-ok now p q h = ground arith

pub require-ok :
    (order : Text) (db : Db) (p : Payment) → require order db ≡ ok p → Memᴰ p db.payments
unfolding require get_by_order_id validate_payment
require-ok order db p h = elim (Option-cases (find_payment order db.payments)) [
  | inl missing ↦ cc (rw missing at h)
  | inr (q, found) ↦
      let e : q ≡ p = ground arith in
      subst (λ r. Memᴰ r db.payments) e (find_payment-Memᴰ order db.payments q found).0
]

validate_message-ok : (m n : OutboxMessage) → validate_message m ≡ ok n → n ≡ m
unfolding validate_message
validate_message-ok m n h = ground arith

save_with_outbox-ok :
    (q : Payment) (m : OutboxMessage) (db db' : Db)
    → save_with_outbox q m db ≡ ok db'
    → (message_id_used m.id db.outbox ≡ false)
      × (db'
          ≡ record { payments = update_payment q db.payments; outbox = insert_message m db.outbox })
unfolding save_with_outbox
save_with_outbox-ok q m db db' h = ground arith

-- How the status of a payment may change
pub data Advances : PaymentStatus → PaymentStatus → Type 0 where
  stays : (s : PaymentStatus) → Advances s s
  confirms : Advances pending confirmed
  refunds : Advances confirmed refunded

-- One commit of `save_with_outbox`: a payment advances, and a new row tells of it.
pub record IsWritten (db db' : Db) : Type 0 where
  pub purpose : Purpose
  pub old : Payment
  pub new : Payment
  pub message : OutboxMessage
  pub member : Memᴰ old db.payments
  pub same : IsSame old new
  pub advances : Advances old.status new.status
  pub step : IsBacked old → IsStep purpose old new message
  pub fresh : message_id_used message.id db.outbox ≡ false
  pub unsent : message.published ≡ false
  pub written : db' ≡ record {
    payments = update_payment new db.payments;
    outbox = insert_message message db.outbox;
  }

IsBacked-IsSame : (p q : Payment) → IsSame p q → IsBacked p → IsBacked q
IsBacked-IsSame p q s b = record {
  id_IsUuid = rw s.id b.id_IsUuid;
  user_IsUuid = rw s.user_id b.user_IsUuid;
  credits = rw s.credits b.credits;
}

pub confirm-IsStep :
    (id : ℕ) (now : Text) (p q : Payment)
    → IsSame p q
    → q.status ≡ confirmed
    → (p.status ≡ pending) ⊎ (p.status ≡ confirmed)
    → IsBacked p
    → IsStep grants p q (purchase_message id q now)
confirm-IsStep id now p q s new old b = record {
  same = s;
  tells = (refl, from_payload-message_of grants id q now (IsBacked-IsSame p q s b));
  due = rw new;
  keeps = λ l due. ground arith;
  adds = λ l due. ground arith;
}

pub refund-IsStep :
    (id : ℕ) (now : Text) (p q : Payment)
    → IsSame p q
    → q.status ≡ refunded
    → (p.status ≡ confirmed) ⊎ (p.status ≡ refunded)
    → IsBacked p
    → IsStep takes_back p q (refund_message id q now)
refund-IsStep id now p q s new old b = record {
  same = s;
  tells = (refl, from_payload-message_of takes_back id q now (IsBacked-IsSame p q s b));
  due = rw new;
  keeps = λ l due. ground arith;
  adds = λ l due. ground arith;
}

pub Advances-confirmed :
    (s t : PaymentStatus) → t ≡ confirmed → (s ≡ pending) ⊎ (s ≡ confirmed) → Advances s t
Advances-confirmed s t new (inl old) = rw (new, old) confirms
Advances-confirmed s t new (inr old) = rw (new, old) (stays confirmed)

pub Advances-refunded :
    (s t : PaymentStatus) → t ≡ refunded → (s ≡ confirmed) ⊎ (s ≡ refunded) → Advances s t
Advances-refunded s t new (inl old) = rw (new, old) refunds
Advances-refunded s t new (inr old) = rw (new, old) (stays refunded)

abbrev fst_of {ℓ κ} : {A : Type ℓ} {B : Type κ} → A → B → Result (A × B) → A × B
fst_of a b (ok p) = p
fst_of a b (err x) = (a, b)

-- The end of `confirm` and of `refund`: a message that passes its validator, written with the row
pub saved-IsWritten :
    (k : Purpose) (p q : Payment) (m : OutboxMessage) (db : Db) {q' : Payment} {db' : Db}
    → Memᴰ p db.payments
    → IsSame p q
    → Advances p.status q.status
    → (IsBacked p → IsStep k p q m)
    → m.published ≡ false
    → record_payment q m db ≡ ok (q', db')
    → IsWritten db db'
unfolding record_payment
saved-IsWritten k p q m db {q'} {db'} i s a step unsent h =
    elim (Result-cases (validate_message m)) [
      | inr (x, bad) ↦ cc (rw bad at h)
      | inl (n, valid) ↦ elim (Result-cases (save_with_outbox q n db)) [
        | inr (x, bad) ↦ cc (rw (valid, bad) at h)
        | inl (saved, wrote) ↦
            let (fresh, written) =
              save_with_outbox-ok q m db saved (rw (validate_message-ok m n valid) at wrote) in
            let last : saved ≡ db' = ap (λ r. (fst_of q db r).1) (rw (valid, wrote) at h) in
            record {
              purpose = k;
              old = p;
              new = q;
              message = m;
              member = i;
              same = s;
              advances = a;
              step = step;
              fresh = fresh;
              unsent = unsent;
              written = sym last ∙ written;
            }
      ]
    ]
