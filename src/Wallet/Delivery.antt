-- ===== src/Wallet/Delivery.antt =====
-- Sequences of deliveries, and the one row that a delivery may add.
use project_aria.Common.{
  ℕ, ◌≡◌, ◌⊎◌, refl, ap, Bool, Option, none, List, [], ◌∷◌, arith, Bool-cases, inl, inr,
}
use project_aria.Common.Int.{ℤ}
use project_aria.Common.Error.{ok, Result-cases}
use project_aria.Common.Json.{Payload}
use project_aria.Common.Text.{Text, text_eq}
use project_aria.Wallet.Model.{
  CreditTransaction, Donation, TransactionType, validate_transaction, validate_transaction-ok,
}
use project_aria.Wallet.Repository.Tables.{Db}
use project_aria.Wallet.Repository.Consistency.{IsConsistent}
use project_aria.Wallet.Repository.Refinement.{Book, book, apply-Refines, post_to_book}
use project_aria.Wallet.Service.{grant}
use project_aria.Wallet.Events.{
  CreditEvent, from_payload, purchase_confirmed, refunded, credit_purchase_confirmed,
}
use project_aria.Wallet.Consumer.{World, apply_event, consume}
use project_aria.Wallet.Consuming.{consume-IsConsistent, db-consume, db-consume_unread}
use project_aria.Wallet.Deliveries.{row_of}

-- A ledger that an operation left as it was, or to which it added one row.
abbrev Extends : CreditTransaction → List CreditTransaction → List CreditTransaction → Type 0
Extends row old new = (new ≡ old) ⊎ (new ≡ row ∷ old)

post_to_book-Extends :
    (e : CreditTransaction) (d : Option Donation) (k : Book)
    → Extends e k.ledger (post_to_book e d k).1.ledger
post_to_book-Extends e d k = ground arith

grant-Extends :
    (id u : ℕ) (credits : ℤ) (key ref : Option Text) (t : TransactionType) (db : Db)
    → IsConsistent db
    → Extends
        (record {
          id = id;
          user_id = u;
          delta = credits;
          type = t;
          ref_id = ref;
          idempotency_key = key;
        })
        db.ledger
        (grant id u credits key ref t db).1.ledger
unfolding grant
grant-Extends id u credits key ref t db h =
    let entry : CreditTransaction = record {
      id = id;
      user_id = u;
      delta = credits;
      type = t;
      ref_id = ref;
      idempotency_key = key;
    } in
    elim (Result-cases (validate_transaction entry)) [
      | inr (x, bad) ↦ rw bad (inl refl)
      | inl (e, fine) ↦
          let (same, signed) = validate_transaction-ok entry e fine in
          rw (fine, same)
            (rw (ap (λ (k : Book). k.ledger) (apply-Refines entry none db h signed).written)
              (post_to_book-Extends entry none (book db)))
    ]

apply_event-Extends :
    (topic : Text) (id : ℕ) (e : CreditEvent) (db : Db)
    → IsConsistent db
    → Extends (row_of topic id e) db.ledger (apply_event topic id e db).1.ledger
unfolding apply_event purchase_confirmed refunded
apply_event-Extends topic id e db h = elim (Bool-cases (text_eq topic credit_purchase_confirmed)) [
  | inl p ↦ rw p (grant-Extends _ _ _ _ _ _ db h)
  | inr r ↦ rw r (grant-Extends _ _ _ _ _ _ db h)
]

-- One message at the consumer, with what the broker and the identifiers do meanwhile.
pub record Delivery : Type 0 where
  pub up : Bool
  pub id : ℕ
  pub topic : Text
  pub payload : Payload

abbrev pub deliver : Delivery → World → World
deliver d w = (consume d.up d.id d.topic d.payload w).1

unfoldable pub deliver_all : List Delivery → World → World
deliver_all [] w = w
deliver_all (d ∷ ds) w = deliver_all ds (deliver d w)

pub deliver-Extends :
    (d : Delivery) (w : World)
    → IsConsistent w.db
    → ((deliver d w).db.ledger ≡ w.db.ledger)
      ⊎ ((e : CreditEvent) × (from_payload d.payload ≡ ok e)
          × ((deliver d w).db.ledger ≡ row_of d.topic d.id e ∷ w.db.ledger))
deliver-Extends d w h = elim (Result-cases (from_payload d.payload)) [
  | inl (e, read) ↦
      rw (db-consume d.up d.id d.topic d.payload w e read)
        (extended e read (apply_event-Extends d.topic d.id e w.db h))
  | inr (x, bad) ↦
      inl (ap (λ (db : Db). db.ledger) (db-consume_unread d.up d.id d.topic d.payload w x bad))
]
  where
    extended :
        (e : CreditEvent)
        → from_payload d.payload ≡ ok e
        → Extends (row_of d.topic d.id e) w.db.ledger (apply_event d.topic d.id e w.db).1.ledger
        → ((apply_event d.topic d.id e w.db).1.ledger ≡ w.db.ledger)
          ⊎ ((e' : CreditEvent) × (from_payload d.payload ≡ ok e')
              × ((apply_event d.topic d.id e w.db).1.ledger ≡ row_of d.topic d.id e' ∷ w.db.ledger))
    extended e read (inl same) = inl same
    extended e read (inr added) = inr (e, read, added)

-- Any sequence of deliveries keeps the tables consistent.
pub deliver_all-IsConsistent :
    (ds : List Delivery) (w : World) → IsConsistent w.db → IsConsistent (deliver_all ds w).db
unfolding deliver_all
deliver_all-IsConsistent [] w h = h
deliver_all-IsConsistent (d ∷ ds) w h =
    deliver_all-IsConsistent ds (deliver d w) (consume-IsConsistent d.up d.id d.topic d.payload w h)
