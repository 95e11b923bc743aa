-- ===== src/Paid/Tests.antt =====
-- The two services together, on one purchase.
use project_aria.Common.{ℕ, ◌≡◌, refl, true, some, List, [], ◌∷◌, arith, All, Memᴰ}
use project_aria.Common.Int.{pos}
use project_aria.Common.Error.{ok}
use project_aria.Common.Text.{Text, codes, text_eq}
use project_aria.Common.Uuid
use project_aria.Wallet.Repository.Tables.{empty}
use project_aria.Wallet.Repository.Consistency.{IsConsistent}
use project_aria.Wallet.Events.{from_payload}
use project_aria.Wallet.Consumer as Wallet
use project_aria.Wallet.Delivery.{Delivery, deliver_all}
use project_aria.Wallet.Once.{amounts}
use project_aria.Payments.Model.{
  Payment, confirmed, OutboxMessage, validate_payment, confirm_payment, validate_message,
}
use project_aria.Payments.Topics.{purchase_message}
use project_aria.Payments.Repository.{
  add, get_by_order_id, save_with_outbox, update_payment, insert_message, fetch_unpublished,
  mark_published,
}
use project_aria.Payments.Service.{
  stub_gateway, new_payment, require, prepare, confirm, finish_confirm, record_payment,
}
use project_aria.Payments.Relay.{Outcome, acknowledged, World, drain, drain_once}
use project_aria.Payments.Contract.{grants, event_of, key_of, topic_of, from_payload-message_of}
use project_aria.Payments.Explained.{Tells}
use project_aria.Payments.Requests.{prepare_request, confirm_request}
use project_aria.Payments.Publishing.{Event, request, poll, IsFair, handle_all, start}
use project_aria.Paid.{Carries, IsPaid, paid-IsLogged, paid_once, nothing_unpaid}

abbrev order : Text
order = codes "order-1"

abbrev bought : Payment
bought = record (new_payment 7 1 order (pos 1000) (pos 100)) {
  status = confirmed;
  provider_key = some (codes "pg-1");
  confirmed_at = some (codes "monday");
}

abbrev heard : OutboxMessage → Outcome
heard m = acknowledged

abbrev events : List Event
events =
    request (prepare_request 7 1 order (pos 1000) (pos 100))
    ∷ request (confirm_request stub_gateway (codes "monday") 20 order (codes "pg-1"))
    ∷ poll heard 100
    ∷ []

fair : All IsFair events
fair = ((omega arith, omega arith), (tt, (tt, tt)))

abbrev granted : OutboxMessage
granted = purchase_message 20 bought (codes "monday")

abbrev ended : World
ended = record {
  db = record { payments = bought ∷ []; outbox = record granted { published = true } ∷ [] };
  log = granted ∷ [];
}

handled : handle_all events start ≡ ended
unfolding handle_all prepare validate_payment add confirm require get_by_order_id finish_confirm
    confirm_payment record_payment validate_message save_with_outbox update_payment insert_message
    text_eq Uuid.to_text drain_once drain fetch_unpublished mark_published
handled = refl

member : Memᴰ bought (handle_all events start).db.payments
member = rw handled (Memᴰ.head refl)

paid-IsLogged_example :
    (n : OutboxMessage) × Memᴰ n (handle_all events start).log × Tells grants n bought
paid-IsLogged_example = paid-IsLogged events bought grants fair member refl (rw handled)

read : from_payload granted.payload ≡ ok (event_of grants bought)
read =
    from_payload-message_of grants 20 bought (codes "monday")
      (record { id_IsUuid = omega arith; user_IsUuid = omega arith; credits = omega arith })

abbrev delivery : ℕ → Delivery
delivery id = record { up = true; id = id; topic = topic_of grants; payload = granted.payload }

carried : (id : ℕ) → Carries (handle_all events start).log (delivery id)
carried id = (granted, rw handled (Memᴰ.head refl), refl, refl)

abbrev before : Wallet.World
before = record { db = empty; dead_letters = [] }

empty-IsConsistent : IsConsistent empty
empty-IsConsistent = record {
  unique = tt;
  balanced = λ u. refl;
  nonneg = λ u. omega arith;
  distinct = tt;
  signed = tt;
}

-- The grant, delivered twice
paid_once_example :
    amounts (key_of grants 7) (deliver_all (delivery 50 ∷ delivery 51 ∷ []) before).db.ledger
    ≡ (1, pos 100) ∷ []
unfolding deliver_all
paid_once_example =
    paid_once events bought [] (delivery 51 ∷ []) (delivery 50) before fair member read
      (carried 50, (carried 51, tt)) empty-IsConsistent refl refl

nothing_unpaid_example :
    All
      (IsPaid (handle_all events start).db.payments)
      (deliver_all (delivery 50 ∷ delivery 51 ∷ []) before).db.ledger
nothing_unpaid_example =
    nothing_unpaid events (delivery 50 ∷ delivery 51 ∷ []) before fair
      (carried 50, (carried 51, tt)) empty-IsConsistent refl
