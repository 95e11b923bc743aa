-- ===== src/Payments/Stale.antt =====
-- Two requests for one order: what `confirm` writes from a payment that it read before the other.
use project_aria.Common.{ℕ, ◌≡◌, ap, ◌∙◌, true, false, some, arith}
use project_aria.Common.Int.{eqb_ℤ}
use project_aria.Common.Error.{ok}
use project_aria.Common.Text.{Text, text_eq_iff}
use project_aria.Payments.Explained.{find_payment-Memᴰ}
use project_aria.Common.Uuid
use project_aria.Payments.Model.{
  Payment, pending, confirmed, refunded, OutboxMessage, confirm_payment, validate_message,
}
use project_aria.Payments.Topics.{purchase_message}
use project_aria.Payments.Repository.{
  Db, find_payment, message_id_used, update_payment, insert_message, save_with_outbox,
}
use project_aria.Payments.Service.{Approval, finish_confirm, record_payment}
use project_aria.Payments.Saving.{touch}
use project_aria.Payments.Serving.{find_payment-touch}

validate-purchase_message :
    (id : ℕ) (p : Payment) (now : Text)
    → validate_message (purchase_message id p now) ≡ ok (purchase_message id p now)
unfolding validate_message
validate-purchase_message id p now = ground (arith, Uuid.length-to_text p.user_id)

save_with_outbox_fresh :
    (r q : Payment) (m : OutboxMessage) (db : Db)
    → find_payment r.order_id db.payments ≡ some q
    → message_id_used m.id db.outbox ≡ false
    → save_with_outbox r m db
      ≡ ok (record { payments = update_payment r db.payments; outbox = insert_message m db.outbox })
unfolding save_with_outbox
save_with_outbox_fresh r q m db found fresh = rw (found, fresh)

touch_found :
    (r q : Payment)
    → q.order_id ≡ r.order_id
    → touch r q ≡ record q {
      status = r.status;
      provider_key = r.provider_key;
      confirmed_at = r.confirmed_at;
      refunded_at = r.refunded_at;
    }
touch_found r q same = rw ((text_eq_iff q.order_id r.order_id).1 same)

confirm_payment_pending :
    (key now : Text) (p : Payment)
    → p.status ≡ pending
    → confirm_payment key now p
      ≡ ok (record p { status = confirmed; provider_key = some key; confirmed_at = some now })
unfolding confirm_payment
confirm_payment_pending key now p before = rw before

-- A confirmation that read its payment as pending, and got its approval while another request
-- confirmed and refunded that payment, succeeds and sets the status back from refunded to
-- confirmed. The approved amount agrees, and the outbox identifier is new.
pub confirm_after_refund :
    (p q : Payment) (a : Approval) (now : Text) (id : ℕ) (db : Db)
    → p.status ≡ pending
    → eqb_ℤ a.amount p.amount ≡ true
    → find_payment p.order_id db.payments ≡ some q
    → q.status ≡ refunded
    → message_id_used id db.outbox ≡ false
    → (r : Payment) × (db' : Db) × (finish_confirm p a now id db ≡ ok (r, db'))
      × (find_payment p.order_id db'.payments
          ≡ some (record q {
            status = confirmed;
            provider_key = some a.provider_key;
            confirmed_at = some now;
            refunded_at = p.refunded_at;
          }))
unfolding finish_confirm record_payment
confirm_after_refund p q a now id db before agreed found after fresh =
    let r = record p {
      status = confirmed;
      provider_key = some a.provider_key;
      confirmed_at = some now;
    } in
    let m = purchase_message id r now in
    (
      r,
      record { payments = update_payment r db.payments; outbox = insert_message m db.outbox },
      rw (
        agreed,
        confirm_payment_pending a.provider_key now p before,
        validate-purchase_message id r now,
        save_with_outbox_fresh r q m db found fresh,
      ),
      find_payment-touch p.order_id r q db.payments found
          ∙ ap some (touch_found r q (find_payment-Memᴰ p.order_id db.payments q found).1),
    )
