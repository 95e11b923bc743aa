-- ===== src/Wallet/Consuming.antt =====
-- Deliveries of credit events: what `consume` does with each message, also when it comes again.
use project_aria.Common.{
  ℕ, ◌≡◌, refl, Bool, true, false, Option, none, some, ◌∷◌, arith, Bool-cases, inl, inr,
  if◌then◌else◌,
}
use project_aria.Common.Int.{ℤ, pos, ◌<ℤ◌}
use project_aria.Common.Error.{Error, Result, ok, err, Result-cases, is_unreadable, attribute_error}
use project_aria.Common.Json.{Payload, get, item, num, to_int, to_uuid}
use project_aria.Common.Text.{Text, text_eq, codes}
use project_aria.Wallet.Model.{
  CreditTransaction, validate_transaction, validate_transaction-ok, TransactionType,
}
use project_aria.Wallet.Repository.Tables.{Db}
use project_aria.Wallet.Repository.Consistency.{IsConsistent}
use project_aria.Wallet.Repository.Refinement.{apply-Refines}
use project_aria.Wallet.Service.{grant}
use project_aria.Wallet.Events.{
  CreditEvent, from_payload, purchase_confirmed, refunded, credit_purchase_confirmed,
}
use project_aria.Wallet.Consumer.{
  World, dead_letter, send_to_dlq, apply_event, after_apply, consume,
}

-- A grant keeps the tables consistent, whether it is posted, repeated or refused.
pub grant-IsConsistent :
    (id u : ℕ) (credits : ℤ) (key ref : Option Text) (t : TransactionType) (db : Db)
    → IsConsistent db
    → IsConsistent (grant id u credits key ref t db).1
unfolding grant
grant-IsConsistent id u credits key ref t db h =
    let entry : CreditTransaction = record {
      id = id;
      user_id = u;
      delta = credits;
      type = t;
      ref_id = ref;
      idempotency_key = key;
    } in
    elim (Result-cases (validate_transaction entry)) [
      | inr (x, bad) ↦ rw bad h
      | inl (e, fine) ↦
          let (same, signed) = validate_transaction-ok entry e fine in
          rw (fine, same) (apply-Refines entry none db h signed).consistent
    ]

apply_event-IsConsistent :
    (topic : Text) (id : ℕ) (e : CreditEvent) (db : Db)
    → IsConsistent db
    → IsConsistent (apply_event topic id e db).1
unfolding apply_event purchase_confirmed refunded
apply_event-IsConsistent topic id e db h =
    elim (Bool-cases (text_eq topic credit_purchase_confirmed)) [
      | inl p ↦ rw p (grant-IsConsistent _ _ _ _ _ _ db h)
      | inr r ↦ rw r (grant-IsConsistent _ _ _ _ _ _ db h)
    ]

pub db-send_to_dlq :
    (up : Bool) (topic : Text) (p : Payload) (x : Error) (w : World)
    → (send_to_dlq up topic p x w).db ≡ w.db
unfolding send_to_dlq
db-send_to_dlq true topic p x w = refl
db-send_to_dlq false topic p x w = refl

pub dead_letters-send_to_dlq :
    (up : Bool) (topic : Text) (p : Payload) (x : Error) (w : World)
    → (send_to_dlq up topic p x w).dead_letters
      ≡ (if up then dead_letter topic p x ∷ w.dead_letters else w.dead_letters)
unfolding send_to_dlq
dead_letters-send_to_dlq true topic p x w = refl
dead_letters-send_to_dlq false topic p x w = refl

db-after_apply :
    (up : Bool) (topic : Text) (p : Payload) (w : World) (out : Result ℤ × Db)
    → (after_apply up topic p w out).db ≡ out.1
db-after_apply up topic p w (ok b, db) = refl
db-after_apply up topic p w (err x, db) = db-send_to_dlq up topic p x (record w { db = db })

module _ (up : Bool) (id : ℕ) (topic : Text) (p : Payload) (w : World) where
  pub db-consume :
      (e : CreditEvent)
      → from_payload p ≡ ok e
      → (consume up id topic p w).1.db ≡ (apply_event topic id e w.db).1
  unfolding consume
  db-consume e read = rw read (db-after_apply up topic p w (apply_event topic id e w.db))

  pub db-consume_unread :
      (x : Error) → from_payload p ≡ err x → (consume up id topic p w).1.db ≡ w.db
  unfolding consume
  db-consume_unread x bad = elim (Bool-cases (is_unreadable x)) [
    | inl caught ↦ rw (bad, caught) (db-send_to_dlq up topic p x w)
    | inr missed ↦ rw (bad, missed)
  ]

  -- Whatever a message holds, consuming it keeps the tables consistent, so that every balance
  -- stays the sum of its ledger rows and never falls below zero.
  pub consume-IsConsistent : IsConsistent w.db → IsConsistent (consume up id topic p w).1.db
  consume-IsConsistent h = elim (Result-cases (from_payload p)) [
    | inl (e, read) ↦ rw (db-consume e read) (apply_event-IsConsistent topic id e w.db h)
    | inr (x, bad) ↦ rw (db-consume_unread x bad) h
  ]

module _ (up : Bool) (id : ℕ) (topic : Text) (p : Payload) (w : World) where
  -- A message that Python reads with a `ValueError`, `KeyError` or `TypeError` changes no row: it
  -- goes to the dead letters of its topic whole, if the broker takes it, and the handler returns.
  pub consume_unreadable :
      (x : Error)
      → from_payload p ≡ err x
      → is_unreadable x ≡ true
      → ((consume up id topic p w).0 ≡ ok tt)
        × ((consume up id topic p w).1 ≡ record {
          db = w.db;
          dead_letters = if up then dead_letter topic p x ∷ w.dead_letters else w.dead_letters;
        })
  unfolding consume send_to_dlq
  consume_unreadable x bad caught = ground arith

  -- A message whose `credits` is a positive number and whose `payment_id` is a number, which
  -- `UUID` answers with an `AttributeError`, passes both `except` clauses by: the handler raises,
  -- and the message is in no dead letter queue.
  pub consume_escapes :
      (c : ℤ) (n : ℤ)
      → get p (codes "v") ≡ none
      → get p (codes "credits") ≡ some (num c)
      → pos 0 <ℤ c
      → get p (codes "payment_id") ≡ some (num n)
      → consume up id topic p w ≡ (err attribute_error, w)
  unfolding consume from_payload item to_int to_uuid
  consume_escapes c n v cr positive pid = ground arith
