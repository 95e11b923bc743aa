-- ===== src/Payments/Repository.antt =====
-- apps/payments/src/payments/adapter/outbound/persistence: the two tables and the statements on
-- them. Each method commits, or raises and leaves the tables as they were.
use project_aria.Common.{
  ℕ, Bool, true, false, ◌||◌, not, Option, none, some, is_some, List, [], ◌∷◌, ◌==◌, if◌then◌else◌,
  ltb, take, keep,
}
use project_aria.Common.Error.{Result, ok, err, integrity_error, lookup_error, guard, ◌>>=◌, ◌>>◌}
use project_aria.Common.Text.{Text, text_eq}
use project_aria.Payments.Model.{Payment, OutboxMessage, validate_payment}

-- The outbox rows stand in the order of their identifiers, as its index keeps them.
pub record Db : Type 0 where
  pub payments : List Payment
  pub outbox : List OutboxMessage

abbrev pub empty : Db
empty = record { payments = []; outbox = [] }

-- `WHERE order_id = order`
abbrev pub find_payment : Text → List Payment → Option Payment
find_payment order [] = none
find_payment order (p ∷ ps) = if text_eq p.order_id order then some p else find_payment order ps

abbrev pub payment_id_used : ℕ → List Payment → Bool
payment_id_used i [] = false
payment_id_used i (p ∷ ps) = p.id == i || payment_id_used i ps

abbrev pub message_id_used : ℕ → List OutboxMessage → Bool
message_id_used i [] = false
message_id_used i (m ∷ ms) = m.id == i || message_id_used i ms

-- `add`: the columns that it names, under the primary key and the unique order number
unfoldable pub add : Payment → Db → Result Db
add p db =
    if payment_id_used p.id db.payments || is_some (find_payment p.order_id db.payments)
    then err integrity_error
    else ok (record db {
      payments =
          record p { provider_key = none; confirmed_at = none; refunded_at = none } ∷ db.payments;
    })

abbrev or_lookup_error : Option Payment → Result (Option Payment)
or_lookup_error none = ok none
or_lookup_error (some p) = do ok (some (← validate_payment p))

-- `get_by_order_id`, which validates the row that it reads
unfoldable pub get_by_order_id : Text → Db → Result (Option Payment)
get_by_order_id order db = or_lookup_error (find_payment order db.payments)

-- The columns that `save_with_outbox` sets on the row of the order
unfoldable pub update_payment : Payment → List Payment → List Payment
update_payment p [] = []
update_payment p (q ∷ qs) =
    (if text_eq q.order_id p.order_id
      then record q {
        status = p.status;
        provider_key = p.provider_key;
        confirmed_at = p.confirmed_at;
        refunded_at = p.refunded_at;
      }
      else q)
    ∷ update_payment p qs

-- A new row of the outbox, at the place of its identifier
unfoldable pub insert_message : OutboxMessage → List OutboxMessage → List OutboxMessage
insert_message m [] = m ∷ []
insert_message m (n ∷ ns) =
    let rest = insert_message m ns in if ltb m.id n.id then m ∷ n ∷ ns else n ∷ rest

-- `save_with_outbox`: both rows in one commit
unfoldable pub save_with_outbox : Payment → OutboxMessage → Db → Result Db
unfolding update_payment insert_message
save_with_outbox p m db = do
  guard (is_some (find_payment p.order_id db.payments)) lookup_error
  guard (not (message_id_used m.id db.outbox)) integrity_error
  ok (record { payments = update_payment p db.payments; outbox = insert_message m db.outbox })

abbrev pub is_unpublished : OutboxMessage → Bool
is_unpublished m = not m.published

abbrev pub unpublished : List OutboxMessage → List OutboxMessage
unpublished = keep is_unpublished

-- `fetch_unpublished`
unfoldable pub fetch_unpublished : ℕ → Db → List OutboxMessage
fetch_unpublished limit db = take limit (unpublished db.outbox)

abbrev pub mark : ℕ → List OutboxMessage → List OutboxMessage
mark i [] = []
mark i (m ∷ ms) = (if m.id == i then record m { published = true } else m) ∷ mark i ms

-- `mark_published`
unfoldable pub mark_published : ℕ → Db → Db
mark_published i db = record db { outbox = mark i db.outbox }
