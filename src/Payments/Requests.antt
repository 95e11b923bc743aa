-- ===== src/Payments/Requests.antt =====
-- The requests to the payments service, and what they do to the state of a payment.
use project_aria.Common.{
  ℕ, ◌≡◌, ◌⊎◌, refl, false, none, ◌∷◌, arith, Memᴰ, Bool-cases, Option-cases, inl, inr,
}
use project_aria.Common.Int.{ℤ, pos, ◌<ℤ◌, eqb_ℤ}
use project_aria.Common.Error.{ok, Result-cases}
use project_aria.Common.Text.{Text}
use project_aria.Common.Uuid.{IsUuid}
use project_aria.Payments.Model.{
  Payment, pending, validate_payment, confirm_payment, refund_payment,
}
use project_aria.Payments.Topics.{purchase_message, refund_message}
use project_aria.Payments.Repository.{Db, find_payment, payment_id_used, add}
use project_aria.Payments.Service.{
  Approval, Gateway, require, prepare, finish_confirm, confirm, finish_refund, refund, approved,
  new_payment,
}
use project_aria.Payments.Contract.{grants, takes_back}
use project_aria.Payments.Written.{
  IsWritten, require-ok, confirm_payment-ok, refund_payment-ok, saved-IsWritten, Advances-confirmed,
  Advances-refunded, confirm-IsStep, refund-IsStep,
}

-- One request, with what the gateway answers, the time, and the identifiers drawn
pub data Request : Type 0 where
  prepare_request : (id user_id : ℕ) → Text → (amount credits : ℤ) → Request
  confirm_request : Gateway → Text → ℕ → Text → Text → Request
  refund_request : Gateway → Text → ℕ → Text → Text → Request

abbrev pub serve : Request → Db → Db
serve (prepare_request id user order amount credits) db =
    (prepare id user order amount credits db).1
serve (confirm_request gateway now id order key) db = (confirm gateway now id order key db).1
serve (refund_request gateway now id order reason) db = (refund gateway now id order reason db).1

-- The identifiers of a new payment are UUIDs.
abbrev pub IsDrawn : Request → Type 0
IsDrawn (prepare_request id user order amount credits) = IsUuid id × IsUuid user
IsDrawn (confirm_request gateway now id order key) = Unit
IsDrawn (refund_request gateway now id order reason) = Unit

finish_confirm-IsWritten :
    (p q : Payment) (a : Approval) (now : Text) (id : ℕ) (db db' : Db)
    → Memᴰ p db.payments
    → finish_confirm p a now id db ≡ ok (q, db')
    → IsWritten db db'
unfolding finish_confirm
finish_confirm-IsWritten p q a now id db db' i h = elim (Bool-cases (eqb_ℤ a.amount p.amount)) [
  | inr other ↦ cc (rw other at h)
  | inl agreed ↦ elim (Result-cases (confirm_payment a.provider_key now p)) [
    | inr (x, bad) ↦ cc (rw (agreed, bad) at h)
    | inl (c, done) ↦
        let (same, new, old) = confirm_payment-ok a.provider_key now p c done in
        saved-IsWritten grants p c (purchase_message id c now) db i same
          (Advances-confirmed p.status c.status new old) (confirm-IsStep id now p c same new old)
          refl (rw (agreed, done) at h)
  ]
]

confirm-cases :
    (gateway : Gateway) (now : Text) (id : ℕ) (order key : Text) (db : Db)
    → let db' = (confirm gateway now id order key db).1 in (db' ≡ db) ⊎ IsWritten db db'
unfolding confirm
confirm-cases gateway now id order key db = elim (Result-cases (require order db)) [
  | inr (x, bad) ↦ rw bad (inl refl)
  | inl (p, read) ↦ elim (Result-cases (gateway.confirm order key p.amount)) [
    | inr (x, bad) ↦ rw (read, bad) (inl refl)
    | inl (a, agreed) ↦ elim (Result-cases (finish_confirm p a now id db)) [
      | inr (x, bad) ↦ rw (read, agreed, bad) (inl refl)
      | inl ((q, db'), done) ↦
          rw (read, agreed, done)
            (inr (finish_confirm-IsWritten p q a now id db db' (require-ok order db p read) done))
    ]
  ]
]

finish_refund-IsWritten :
    (p q : Payment) (now : Text) (id : ℕ) (db db' : Db)
    → Memᴰ p db.payments
    → finish_refund p now id db ≡ ok (q, db')
    → IsWritten db db'
unfolding finish_refund
finish_refund-IsWritten p q now id db db' i h = elim (Result-cases (refund_payment now p)) [
  | inr (x, bad) ↦ cc (rw bad at h)
  | inl (c, done) ↦
      let (same, new, old) = refund_payment-ok now p c done in
      saved-IsWritten takes_back p c (refund_message id c now) db i same
        (Advances-refunded p.status c.status new old) (refund-IsStep id now p c same new old) refl
        (rw done at h)
]

refund-cases :
    (gateway : Gateway) (now : Text) (id : ℕ) (order reason : Text) (db : Db)
    → let db' = (refund gateway now id order reason db).1 in (db' ≡ db) ⊎ IsWritten db db'
unfolding refund
refund-cases gateway now id order reason db = elim (Result-cases (require order db)) [
  | inr (x, bad) ↦ rw bad (inl refl)
  | inl (p, read) ↦ elim (Result-cases (approved p.provider_key)) [
    | inr (x, bad) ↦ rw (read, bad) (inl refl)
    | inl (key, has) ↦ elim (Result-cases (gateway.cancel key reason)) [
      | inr (x, bad) ↦ rw (read, has, bad) (inl refl)
      | inl (u, cancelled) ↦ elim (Result-cases (finish_refund p now id db)) [
        | inr (x, bad) ↦ rw (read, has, cancelled, bad) (inl refl)
        | inl ((q, db'), done) ↦
            rw (read, has, cancelled, done)
              (inr (finish_refund-IsWritten p q now id db db' (require-ok order db p read) done))
      ]
    ]
  ]
]

-- A new payment, as `add` commits it
pub record IsAdded (db db' : Db) : Type 0 where
  pub payment : Payment
  pub status : payment.status ≡ pending
  pub positive : pos 0 <ℤ payment.credits
  pub new_id : payment_id_used payment.id db.payments ≡ false
  pub new_order : find_payment payment.order_id db.payments ≡ none
  pub written : db' ≡ record db { payments = payment ∷ db.payments }

validate_payment-ok : (p q : Payment) → validate_payment p ≡ ok q → (q ≡ p) × (pos 0 <ℤ p.credits)
unfolding validate_payment
validate_payment-ok p q h = ground arith

add-ok :
    (p : Payment) (db db' : Db)
    → add p db ≡ ok db'
    → (payment_id_used p.id db.payments ≡ false)
      × (find_payment p.order_id db.payments ≡ none)
      × (db' ≡ record db {
        payments =
            record p { provider_key = none; confirmed_at = none; refunded_at = none } ∷ db.payments;
      })
unfolding add
add-ok p db db' h = elim (Option-cases (find_payment p.order_id db.payments)) [
  | inl free ↦ ground arith
  | inr (q, found) ↦ ground arith
]

prepare-cases :
    (id user : ℕ) (order : Text) (amount credits : ℤ) (db : Db)
    → let db' = (prepare id user order amount credits db).1 in
      (db' ≡ db) ⊎ ((a : IsAdded db db') × (a.payment.id ≡ id) × (a.payment.user_id ≡ user))
unfolding prepare
prepare-cases id user order amount credits db =
    elim (Result-cases (validate_payment (new_payment id user order amount credits))) [
      | inr (x, bad) ↦ rw bad (inl refl)
      | inl (p, valid) ↦
          let (same, positive) =
            validate_payment-ok (new_payment id user order amount credits) p valid in
          elim (Result-cases (add (new_payment id user order amount credits) db)) [
            | inr (x, bad) ↦ rw (valid, same, bad) (inl refl)
            | inl (db', done) ↦
                let (new_id, new_order, written) =
                  add-ok (new_payment id user order amount credits) db db' done in
                rw (valid, same, done)
                  (inr (
                    (record {
                      payment = new_payment id user order amount credits;
                      status = refl;
                      positive = positive;
                      new_id = new_id;
                      new_order = new_order;
                      written = written;
                    }),
                    refl,
                    refl,
                  ))
          ]
    ]

-- What a request may do to the tables: nothing, a new payment, or one step of a payment with its
-- message.
pub serve-cases :
    (r : Request) (db : Db)
    → IsDrawn r
    → (serve r db ≡ db)
      ⊎ (((a : IsAdded db (serve r db)) × IsUuid a.payment.id × IsUuid a.payment.user_id)
          ⊎ IsWritten db (serve r db))
serve-cases (prepare_request id user order amount credits) db drawn =
    elim (prepare-cases id user order amount credits db) [
      | inl same ↦ inl same
      | inr (a, i, u) ↦ inr (inl (a, rw i drawn.0, rw u drawn.1))
    ]
serve-cases (confirm_request gateway now id order key) db drawn =
    elim (confirm-cases gateway now id order key db) [ inl same ↦ inl same | inr w ↦ inr (inr w) ]
serve-cases (refund_request gateway now id order reason) db drawn =
    elim (refund-cases gateway now id order reason db) [ inl same ↦ inl same | inr w ↦ inr (inr w) ]
