-- ===== src/Wallet/Consumer.antt =====
-- wallet/adapter/inbound/worker/router.py: `CreditEventConsumer`, over the database and the
-- messages that the broker has taken.
use project_aria.Common.{ℕ, Bool, true, false, [], ◌∷◌, ◌++◌, List, if◌then◌else◌}
use project_aria.Common.Int.{ℤ}
use project_aria.Common.Error.{Error, Result, ok, err, is_unreadable}
use project_aria.Common.Json.{Payload, text, get, or_default, to_str}
use project_aria.Common.Text.{Text, text_eq, codes}
use project_aria.Wallet.Events.{
  CreditEvent, from_payload, purchase_confirmed, refunded, credit_purchase_confirmed,
}
use project_aria.Wallet.Repository.Tables.{Db}

-- The event that `_to_dlq` publishes; the time of the failure is left out, and the error stands
-- for the text made of its class and message.
pub record DeadLetter : Type 0 where
  pub stream : Text
  pub key : Text
  pub original_topic : Text
  pub error : Error
  pub original : Payload

pub record World : Type 0 where
  pub db : Db
  pub dead_letters : List DeadLetter

abbrev pub dead_letter : Text → Payload → Error → DeadLetter
dead_letter topic p x = record {
  stream = topic ++ codes ".dlq";
  key = to_str (or_default (text []) (get p (codes "user_id")));
  original_topic = topic;
  error = x;
  original = p;
}

-- `_to_dlq`; `up` says whether the broker takes the message. If not, a log line is all that is left.
unfoldable pub send_to_dlq : Bool → Text → Payload → Error → World → World
send_to_dlq true topic p x w = record w { dead_letters = dead_letter topic p x ∷ w.dead_letters }
send_to_dlq false topic p x w = w

-- The service method that `consume` picks by the topic
unfoldable pub apply_event : Text → ℕ → CreditEvent → Db → Result ℤ × Db
apply_event topic id e =
    if text_eq topic credit_purchase_confirmed then purchase_confirmed id e else refunded id e

-- Both `except` clauses of `consume`
abbrev pub after_apply : Bool → Text → Payload → World → Result ℤ × Db → World
after_apply up topic p w (ok _, db) = record w { db = db }
after_apply up topic p w (err x, db) = send_to_dlq up topic p x (record w { db = db })

abbrev pub after_parse :
    Bool → ℕ → Text → Payload → World → Result CreditEvent → Result (Unit {0}) × World
after_parse up id topic p w (ok e) = (ok tt, after_apply up topic p w (apply_event topic id e w.db))
after_parse up id topic p w (err x) =
    if is_unreadable x then (ok tt, send_to_dlq up topic p x w) else (err x, w)

-- `consume`: one delivery. `id` is the identifier that a ledger row gets.
unfoldable pub consume : Bool → ℕ → Text → Payload → World → Result (Unit {0}) × World
consume up id topic p w = after_parse up id topic p w (from_payload p)
