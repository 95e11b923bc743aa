-- ===== src/Payments/Tests.antt =====
-- The payments service's theorems at concrete inputs: one purchase, with the stub gateway.
use project_aria.Common.{◌≡◌, refl, subst, some, [], ◌∷◌, arith}
use project_aria.Common.Int.{pos}
use project_aria.Common.Error.{ok}
use project_aria.Common.Text.{Text, codes, text_eq}
use project_aria.Common.Uuid
use project_aria.Wallet.Events.{from_payload}
use project_aria.Payments.Model.{
  Payment, confirmed, refunded, OutboxMessage, validate_payment, confirm_payment, validate_message,
}
use project_aria.Payments.Topics.{purchase_message, refund_message}
use project_aria.Payments.Repository.{
  Db, empty, add, find_payment, get_by_order_id, save_with_outbox, update_payment, insert_message,
  unpublished,
}
use project_aria.Payments.Service.{
  stub_gateway, new_payment, require, prepare, confirm, finish_confirm, record_payment,
}
use project_aria.Payments.Relay.{Outcome, acknowledged, World, run}
use project_aria.Payments.Draining.{run_drains}
use project_aria.Payments.Contract.{takes_back, IsBacked, event_of, from_payload-message_of}
use project_aria.Payments.Explained.{IsExplained, IsSame}
use project_aria.Payments.Written.{Advances}
use project_aria.Payments.Requests.{
  Request, prepare_request, confirm_request, refund_request, serve,
}
use project_aria.Payments.Serving.{serve-IsExplained, serve-Advances}
use project_aria.Payments.Publishing.{
  IsSound, request, poll, handle_all, handle_all-IsSound, start, start-IsSound,
}
use project_aria.Payments.Stale.{confirm_after_refund}

abbrev order : Text
order = codes "order-1"

abbrev fresh_payment : Payment
fresh_payment = new_payment 7 1 order (pos 1000) (pos 100)

abbrev bought : Payment
bought = record fresh_payment {
  status = confirmed;
  provider_key = some (codes "pg-1");
  confirmed_at = some (codes "monday");
}

abbrev buy : Request
buy = prepare_request 7 1 order (pos 1000) (pos 100)

abbrev approve : Request
approve = confirm_request stub_gateway (codes "monday") 20 order (codes "pg-1")

-- Bought, not published
abbrev paid : Db
paid = record { payments = bought ∷ []; outbox = purchase_message 20 bought (codes "monday") ∷ [] }

empty-IsExplained : IsExplained empty
empty-IsExplained = start-IsSound.explained

abbrev prepared : Db
prepared = record { payments = fresh_payment ∷ []; outbox = [] }

served_buy : serve buy empty ≡ prepared
unfolding prepare validate_payment add
served_buy = refl

served_approve : serve approve prepared ≡ paid
unfolding confirm require get_by_order_id validate_payment finish_confirm confirm_payment
    record_payment validate_message save_with_outbox update_payment insert_message text_eq
    Uuid.to_text
served_approve = refl

prepared-IsExplained : IsExplained prepared
prepared-IsExplained =
    subst IsExplained served_buy
      (serve-IsExplained buy empty (omega arith, omega arith) empty-IsExplained)

paid-IsExplained : IsExplained paid
paid-IsExplained =
    subst IsExplained served_approve (serve-IsExplained approve prepared tt prepared-IsExplained)

abbrev give_back : Request
give_back = refund_request stub_gateway (codes "tuesday") 21 order (codes "asked")

serve-Advances_example :
    (q : Payment) × (find_payment order (serve give_back paid).payments ≡ some q)
    × IsSame bought q
    × Advances confirmed q.status
unfolding text_eq
serve-Advances_example = serve-Advances give_back paid order bought tt paid-IsExplained refl

abbrev outbox : World
outbox = record { db = paid; log = [] }

abbrev heard : OutboxMessage → Outcome
heard m = acknowledged

run_drains_example : unpublished (run 1 (heard ∷ heard ∷ []) outbox).db.outbox ≡ []
run_drains_example =
    run_drains 1 (heard ∷ heard ∷ []) outbox (refl, tt) (λ m. refl, (λ m. refl, tt)) (omega arith)

bought-IsBacked : IsBacked bought
bought-IsBacked = record {
  id_IsUuid = omega arith;
  user_IsUuid = omega arith;
  credits = omega arith;
}

from_payload-message_of_example :
    from_payload (refund_message 21 bought (codes "tuesday")).payload
    ≡ ok (event_of takes_back bought)
from_payload-message_of_example =
    from_payload-message_of takes_back 21 bought (codes "tuesday") bought-IsBacked

handle_all-IsSound_example :
    IsSound (handle_all (request buy ∷ request approve ∷ poll heard 100 ∷ []) start)
handle_all-IsSound_example =
    handle_all-IsSound (request buy ∷ request approve ∷ poll heard 100 ∷ []) start
      ((omega arith, omega arith), (tt, (tt, tt))) start-IsSound

-- Refunded while a second confirmation waited for the gateway
abbrev refunded_db : Db
refunded_db = record paid {
  payments = record bought { status = refunded; refunded_at = some (codes "tuesday") } ∷ [];
}

confirm_after_refund_example :
    (r : Payment) × (db : Db) × (finish_confirm fresh_payment
        (record { provider_key = codes "pg-1"; amount = pos 1000 })
        (codes "tuesday")
        22
        refunded_db
      ≡ ok (r, db))
    × (find_payment order db.payments
        ≡ some (record bought { confirmed_at = some (codes "tuesday") }))
unfolding text_eq
confirm_after_refund_example =
    confirm_after_refund fresh_payment
      (record bought { status = refunded; refunded_at = some (codes "tuesday") })
      (record { provider_key = codes "pg-1"; amount = pos 1000 }) (codes "tuesday") 22 refunded_db
      refl refl refl refl refl
