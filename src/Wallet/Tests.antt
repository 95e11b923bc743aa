-- ===== src/Wallet/Tests.antt =====
-- The wallet's theorems at concrete inputs.
use project_aria.Common.{
  ℕ, ◌≡◌, refl, ap, true, false, none, some, [], ◌∷◌, ◌==◌, if◌then◌else◌, arith,
}
use project_aria.Common.Int.{pos, ◌+ℤ◌, neg}
use project_aria.Common.Error.{ok, err, value_error, attribute_error}
use project_aria.Common.Json.{Payload, num, text, get, item, to_int, to_uuid, to_str}
use project_aria.Common.Text.{Text, codes, text_eq}
use project_aria.Common.Uuid
use project_aria.Wallet.Model.{sign_matches_type, validate_donation, validate_transaction}
use project_aria.Wallet.Repository.Tables.{Db, empty, balance_of, donation_id_used, id_used}
use project_aria.Wallet.Repository.{apply}
use project_aria.Wallet.Repository.Consistency.{IsConsistent}
use project_aria.Wallet.Repository.Refinement.{book, Refines, apply-Refines}
use project_aria.Wallet.Service.{Gift, donate, charge}
use project_aria.Wallet.Donating.{IsAtomic, donate-IsAtomic, charge_replayed}
use project_aria.Wallet.Events.{
  CreditEvent, from_payload, credit_purchase_confirmed, credit_refunded,
}
use project_aria.Wallet.Granting.{IsSound, purchase_entry, refund_entry}
use project_aria.Wallet.Consumer.{World, consume}
use project_aria.Wallet.Consuming.{consume-IsConsistent, consume_escapes, db-consume_unread}
use project_aria.Wallet.Deliveries.{consume_purchase, consume_refund}
use project_aria.Wallet.Delivery.{Delivery, deliver_all}
use project_aria.Wallet.Once.{Agrees, amounts, purchase_once}

abbrev bought : CreditEvent
bought = record {
  payment_id = 7;
  user_id = 1;
  credits = pos 100;
  idempotency_key = codes "payment:7:purchase";
}

-- User 1 holds the 100 credits of a purchase.
abbrev rich : Db
rich = record {
  wallets = (1, pos 100) ∷ [];
  ledger = purchase_entry 50 bought ∷ [];
  donations = [];
}

empty-IsConsistent : IsConsistent empty
empty-IsConsistent = record {
  unique = tt;
  balanced = λ u. refl;
  nonneg = λ u. omega arith;
  distinct = tt;
  signed = tt;
}

rich-IsConsistent : IsConsistent rich
unfolding sign_matches_type ◌+ℤ◌
rich-IsConsistent = record {
  unique = (refl, tt);
  balanced = λ u. ground arith;
  nonneg = λ u. ground arith;
  distinct = (refl, refl, tt);
  signed = (refl, tt);
}

abbrev gift : Gift
gift = record {
  donation_id = 9;
  entry_id = 51;
  donor_id = 1;
  persona_id = 3;
  amount = pos 30;
  message = none;
  room_id = none;
  idempotency_key = some (codes "gift-1");
}

-- Another user's gift under the key of the purchase
abbrev replayed : Gift
replayed = record gift { donor_id = 2; idempotency_key = some (codes "payment:7:purchase") }

apply-Refines_example :
    Refines (purchase_entry 51 bought) none empty (apply (purchase_entry 51 bought) none empty)
unfolding sign_matches_type
apply-Refines_example = apply-Refines (purchase_entry 51 bought) none empty empty-IsConsistent refl

donate-IsAtomic_example : IsAtomic gift rich (donate gift rich)
donate-IsAtomic_example = donate-IsAtomic gift rich rich-IsConsistent

charge_replayed_example :
    ((charge replayed rich).0 ≡ ok (record { donation_id = 9; balance_after = pos 0 }))
    × (book (charge replayed rich).1 ≡ book rich)
    × (donation_id_used 9 (charge replayed rich).1.donations ≡ false)
    × ((u : ℕ) → balance_of (charge replayed rich).1 u ≡ balance_of rich u)
unfolding validate_donation validate_transaction neg Uuid.to_text text_eq
charge_replayed_example = charge_replayed replayed rich rich-IsConsistent refl refl refl refl

abbrev message : Text → Payload
message payment_id =
    (codes "v", num (pos 1))
    ∷ (codes "payment_id", text payment_id)
    ∷ (codes "user_id", text (codes "00000000-0000-0000-0000-000000000001"))
    ∷ (codes "credits", num (pos 100))
    ∷ (codes "idempotency_key", text (codes "payment:7:purchase"))
    ∷ []

abbrev good : Payload
good = message (codes "00000000-0000-0000-0000-000000000007")

abbrev garbled : Payload
garbled = message (codes "seven")

abbrev numeric : Payload
numeric = (codes "credits", num (pos 5)) ∷ (codes "payment_id", num (pos 7)) ∷ []

read_good : from_payload good ≡ ok bought
unfolding from_payload get item to_int to_uuid to_str
read_good = refl

bought-IsSound : IsSound bought
bought-IsSound = omega arith

abbrev before_purchase : World
before_purchase = record { db = empty; dead_letters = [] }

abbrev after_purchase : World
after_purchase = record { db = rich; dead_letters = [] }

consume-IsConsistent_example :
    IsConsistent (consume true 60 credit_refunded garbled after_purchase).1.db
consume-IsConsistent_example =
    consume-IsConsistent true 60 credit_refunded garbled after_purchase rich-IsConsistent

read_garbled : from_payload garbled ≡ err value_error
unfolding from_payload get item to_int to_uuid to_str
read_garbled = refl

consume_escapes_example :
    consume true 60 credit_purchase_confirmed numeric after_purchase
    ≡ (err attribute_error, after_purchase)
unfolding get
consume_escapes_example =
    consume_escapes true 60 credit_purchase_confirmed numeric after_purchase (pos 5) (pos 7) refl
      refl (omega arith) refl

consume_purchase_example :
    let (r, w) = consume true 50 credit_purchase_confirmed good before_purchase in
    (r ≡ ok tt)
    × (w.db.ledger ≡ purchase_entry 50 bought ∷ [])
    × (w.db.donations ≡ [])
    × ((u : ℕ)
        → balance_of w.db u
          ≡ (if 1 == u then balance_of empty u +ℤ pos 100 else balance_of empty u))
    × (w.dead_letters ≡ [])
consume_purchase_example =
    consume_purchase true 50 good before_purchase bought empty-IsConsistent read_good bought-IsSound
      refl refl

abbrev returned : CreditEvent
returned = record bought { idempotency_key = codes "payment:7:refund" }

abbrev refund_message : Payload
refund_message = (codes "idempotency_key", text (codes "payment:7:refund")) ∷ good

read_refund : from_payload refund_message ≡ ok returned
unfolding from_payload get item to_int to_uuid to_str
read_refund = refl

returned-IsSound : IsSound returned
returned-IsSound = omega arith

consume_refund_example :
    let (r, w) = consume true 52 credit_refunded refund_message after_purchase in
    (r ≡ ok tt)
    × (w.db.ledger ≡ refund_entry 52 returned ∷ purchase_entry 50 bought ∷ [])
    × (w.db.donations ≡ [])
    × ((u : ℕ)
        → balance_of w.db u
          ≡ (if 1 == u then balance_of rich u +ℤ neg (pos 100) else balance_of rich u))
    × (w.dead_letters ≡ [])
unfolding text_eq
consume_refund_example =
    consume_refund true 52 refund_message after_purchase returned rich-IsConsistent read_refund
      returned-IsSound refl refl refl

abbrev delivery : ℕ → Payload → Delivery
delivery id p = record { up = true; id = id; topic = credit_purchase_confirmed; payload = p }

good-Agrees : (id : ℕ) → Agrees (codes "payment:7:purchase") 1 (pos 100) (delivery id good)
good-Agrees id e read same = (refl, ground (arith, read_good), ground (arith, read_good))

garbled-Agrees : (id : ℕ) → Agrees (codes "payment:7:purchase") 1 (pos 100) (delivery id garbled)
garbled-Agrees id e read same = cc (read_garbled, read)

untouched : id_used 50 (deliver_all (delivery 49 garbled ∷ []) before_purchase).db.ledger ≡ false
unfolding deliver_all
untouched =
    ap (λ (db : Db). id_used 50 db.ledger)
      (db-consume_unread true 49 credit_purchase_confirmed garbled before_purchase value_error
        read_garbled)

-- A garbled message, the purchase, and the purchase again
purchase_once_example :
    amounts
      (codes "payment:7:purchase")
      (deliver_all
        (delivery 49 garbled ∷ delivery 50 good ∷ delivery 51 good ∷ [])
        before_purchase).db.ledger
    ≡ (1, pos 100) ∷ []
purchase_once_example =
    purchase_once (delivery 49 garbled ∷ []) (delivery 51 good ∷ []) (delivery 50 good) bought
      before_purchase empty-IsConsistent refl refl read_good bought-IsSound untouched
      (garbled-Agrees 49, (good-Agrees 50, (good-Agrees 51, tt)))
