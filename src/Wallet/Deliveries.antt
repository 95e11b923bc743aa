-- ===== src/Wallet/Deliveries.antt =====
-- What one delivery of a credit event does: wallet/adapter/inbound/worker/router.py over
-- wallet/application/credit_events.py.
use project_aria.Common.{
  ℕ, ◌≡◌, refl, ap, Bool, true, false, none, some, ◌∷◌, ◌==◌, arith, Bool-cases, inl, inr,
  if◌then◌else◌,
}
use project_aria.Common.Int.{ℤ, pos, ◌+ℤ◌, neg, leb_ℤ, +ℤ_parts, neg_parts}
use project_aria.Common.Error.{Error, Result, ok, err, insufficient_credit, err-injective}
use project_aria.Common.Json.{Payload}
use project_aria.Common.Text.{Text, text_eq, text_eq_refl}
use project_aria.Wallet.Model.{CreditTransaction}
use project_aria.Wallet.Repository.Tables.{Db, balance_of, key_used, id_used}
use project_aria.Wallet.Repository.{apply}
use project_aria.Wallet.Repository.Consistency.{IsConsistent}
use project_aria.Wallet.Repository.Apply.{
  apply_repeated, balance_of-ensure_wallet, ledger-ensure_wallet, donations-ensure_wallet,
}
use project_aria.Wallet.Repository.Refinement.{book}
use project_aria.Wallet.Events.{
  CreditEvent, from_payload, credit_purchase_confirmed, credit_refunded,
}
use project_aria.Wallet.Granting.{
  IsSound, purchase_entry, refund_entry, purchase_confirmed-apply, refunded-apply, purchase_signed,
  refund_signed, apply-IsPosted, apply_short,
}
use project_aria.Wallet.Consumer.{
  World, dead_letter, send_to_dlq, apply_event, after_apply, consume,
}
use project_aria.Wallet.Consuming.{db-send_to_dlq, dead_letters-send_to_dlq}

-- The row that a delivery of the event would add.
abbrev pub row_of : Text → ℕ → CreditEvent → CreditTransaction
row_of topic id e =
    if text_eq topic credit_purchase_confirmed then purchase_entry id e else refund_entry id e

apply_event-apply :
    (topic : Text) (id : ℕ) (e : CreditEvent) (db : Db)
    → IsSound e
    → apply_event topic id e db ≡ apply (row_of topic id e) none db
unfolding apply_event
apply_event-apply topic id e db s = elim (Bool-cases (text_eq topic credit_purchase_confirmed)) [
  | inl p ↦ rw p (purchase_confirmed-apply id e s db)
  | inr r ↦ rw r (refunded-apply id e s db)
]

pub key-row_of :
    (topic : Text) (id : ℕ) (e : CreditEvent)
    → (row_of topic id e).idempotency_key ≡ some e.idempotency_key
key-row_of topic id e = ground arith

-- A message that reads as an event of positive credits and a key of at most 64 characters, and
-- whose key the ledger has, is taken and changes nothing: no row, no donation, no balance, no dead
-- letter.
pub consume_repeated :
    (up : Bool) (id : ℕ) (topic : Text) (p : Payload) (w : World) (e : CreditEvent)
    → from_payload p ≡ ok e
    → IsSound e
    → key_used (some e.idempotency_key) w.db.ledger ≡ true
    → let (r, w') = consume up id topic p w in
      (r ≡ ok tt)
      × (book w'.db ≡ book w.db)
      × ((u : ℕ) → balance_of w'.db u ≡ balance_of w.db u)
      × (w'.dead_letters ≡ w.dead_letters)
unfolding consume
consume_repeated up id topic p w e read s used =
    rw
      (
        read,
        apply_event-apply topic id e w.db s,
        apply_repeated (row_of topic id e) none w.db (rw (key-row_of topic id e) used),
      )
      (
        refl,
        rw (ledger-ensure_wallet _ w.db, donations-ensure_wallet _ w.db),
        λ u. balance_of-ensure_wallet _ u w.db,
        refl,
      )

after_apply_ok :
    (up : Bool) (topic : Text) (p : Payload) (w : World) (out : Result ℤ × Db) {b : ℤ}
    → out.0 ≡ ok b
    → after_apply up topic p w out ≡ record w { db = out.1 }
after_apply_ok up topic p w (ok b, db) h = refl
after_apply_ok up topic p w (err x, db) h = cc

after_apply_err :
    (up : Bool) (topic : Text) (p : Payload) (w : World) (out : Result ℤ × Db) {x : Error}
    → out.0 ≡ err x
    → after_apply up topic p w out ≡ send_to_dlq up topic p x (record w { db = out.1 })
after_apply_err up topic p w (ok b, db) h = cc
after_apply_err up topic p w (err y, db) h =
    ap (λ z. send_to_dlq up topic p z (record w { db = db })) (err-injective h)

module _ (up : Bool) (id : ℕ) (p : Payload) (w : World) (e : CreditEvent) (h : IsConsistent w.db)
    (read : from_payload p ≡ ok e) (s : IsSound e)
    (new_key : key_used (some e.idempotency_key) w.db.ledger ≡ false)
    (new_id : id_used id w.db.ledger ≡ false) where
  -- On consistent tables, a purchase message that reads as an event of positive credits and a key
  -- of at most 64 characters, where the key and the row's identifier are new, is granted: its row
  -- is added, the buyer's balance rises by the credits, no other balance moves, and nothing is
  -- dead-lettered.
  pub consume_purchase :
      let (r, w') = consume up id credit_purchase_confirmed p w in
      (r ≡ ok tt)
      × (w'.db.ledger ≡ purchase_entry id e ∷ w.db.ledger)
      × (w'.db.donations ≡ w.db.donations)
      × ((u : ℕ)
          → balance_of w'.db u
            ≡ (if e.user_id == u then balance_of w.db u +ℤ e.credits else balance_of w.db u))
      × (w'.dead_letters ≡ w.dead_letters)
  unfolding consume apply_event
  consume_purchase =
      let row = purchase_entry id e in
      let covered : leb_ℤ (pos 0) (balance_of w.db e.user_id +ℤ e.credits) ≡ true =
        ground
          (arith, h.nonneg e.user_id, s.positive, +ℤ_parts (balance_of w.db e.user_id) e.credits) in
      let posted =
        apply-IsPosted row w.db h (purchase_signed id e s) (rw (new_id, new_key)) covered in
      rw (read, text_eq_refl credit_purchase_confirmed, purchase_confirmed-apply id e s w.db)
        (rw (after_apply_ok up credit_purchase_confirmed p w (apply row none w.db) posted.result)
          (refl, posted.ledger, posted.donations, posted.balances, refl))

  -- On consistent tables, a refund message that reads as an event of positive credits and a key of
  -- at most 64 characters, where the key and the row's identifier are new and the balance covers
  -- the credits, is taken back: its row is added, the balance falls by the credits, no other
  -- balance moves, and nothing is dead-lettered.
  pub consume_refund :
      leb_ℤ e.credits (balance_of w.db e.user_id) ≡ true
      → let (r, w') = consume up id credit_refunded p w in
        (r ≡ ok tt)
        × (w'.db.ledger ≡ refund_entry id e ∷ w.db.ledger)
        × (w'.db.donations ≡ w.db.donations)
        × ((u : ℕ)
            → balance_of w'.db u
              ≡ (if e.user_id == u then balance_of w.db u +ℤ neg e.credits else balance_of w.db u))
        × (w'.dead_letters ≡ w.dead_letters)
  unfolding consume apply_event text_eq
  consume_refund enough =
      let row = refund_entry id e in
      let posted =
        apply-IsPosted row w.db h (refund_signed id e s) (rw (new_id, new_key)) (covered enough) in
      rw (read, refunded-apply id e s w.db)
        (rw (after_apply_ok up credit_refunded p w (apply row none w.db) posted.result)
          (refl, posted.ledger, posted.donations, posted.balances, refl))
    where
      covered :
          leb_ℤ e.credits (balance_of w.db e.user_id) ≡ true
          → leb_ℤ (pos 0) (balance_of w.db e.user_id +ℤ neg e.credits) ≡ true
      covered enough =
          ground (arith, +ℤ_parts (balance_of w.db e.user_id) (neg e.credits), neg_parts e.credits)

  -- On consistent tables, a refund message that reads as an event of positive credits and a key of
  -- at most 64 characters, where the key and the row's identifier are new and the balance does not
  -- cover the credits, changes no row and no balance. It goes to the dead letters with the reason,
  -- if the broker takes it.
  pub consume_refund_short :
      leb_ℤ e.credits (balance_of w.db e.user_id) ≡ false
      → let (r, w') = consume up id credit_refunded p w in
        (r ≡ ok tt)
        × (book w'.db ≡ book w.db)
        × ((u : ℕ) → balance_of w'.db u ≡ balance_of w.db u)
        × (w'.dead_letters ≡ (
            if up
            then dead_letter credit_refunded p insufficient_credit ∷ w.dead_letters
            else w.dead_letters))
  unfolding consume apply_event text_eq
  consume_refund_short short =
      let row = refund_entry id e in
      let (refused, same, balances) =
        apply_short row w.db h (refund_signed id e s) (rw (new_id, new_key)) (uncovered short) in
      rw (read, refunded-apply id e s w.db)
        (rw (after_apply_err up credit_refunded p w (apply row none w.db) refused) (
          refl,
          rw (db-send_to_dlq up credit_refunded p insufficient_credit (after row)) same,
          λ u.
              rw (db-send_to_dlq up credit_refunded p insufficient_credit (after row)) (balances u),
          dead_letters-send_to_dlq up credit_refunded p insufficient_credit (after row),
        ))
    where
      after : CreditTransaction → World
      after row = record w { db = (apply row none w.db).1 }

      uncovered :
          leb_ℤ e.credits (balance_of w.db e.user_id) ≡ false
          → leb_ℤ (pos 0) (balance_of w.db e.user_id +ℤ neg e.credits) ≡ false
      uncovered short =
          ground (arith, +ℤ_parts (balance_of w.db e.user_id) (neg e.credits), neg_parts e.credits)
