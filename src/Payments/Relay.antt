-- ===== src/Payments/Relay.antt =====
-- apps/payments/src/payments/application/relay.py, with the broker's log of what it has taken, and
-- the loop of workers/outbox.py.
use project_aria.Common.{ℕ, suc, List, [], ◌∷◌, ◌++◌}
use project_aria.Payments.Model.{OutboxMessage}
use project_aria.Payments.Repository.{Db, fetch_unpublished, mark_published}

-- How one `publish` ends: the broker has the message and says so; it has not; or it has, and the
-- relay does not learn of it or ends before it marks the row.
pub data Outcome : Type 0 where
  acknowledged refused unacknowledged : Outcome

pub record World : Type 0 where
  pub db : Db
  pub log : List OutboxMessage

abbrev pub publish : OutboxMessage → World → World
publish m w = record w { log = w.log ++ m ∷ [] }

-- How the loop goes on after one `publish`: with the other messages, counting this one, or not.
abbrev pub after_publish : Outcome → World → World → ℕ × World → ℕ × World
after_publish acknowledged w taken (n, w') = (suc n, w')
after_publish refused w taken rest = (0, w)
after_publish unacknowledged w taken rest = (0, taken)

-- The loop of `drain_once`, over the messages left, and the number that it counts
unfoldable pub drain : (OutboxMessage → Outcome) → List OutboxMessage → World → ℕ × World
drain outcome [] w = (0, w)
drain outcome (m ∷ ms) w =
    let taken = publish m w in
    after_publish (outcome m) w taken
      (drain outcome ms (record taken { db = mark_published m.id w.db }))

-- `OutboxRelay.drain_once`
unfoldable pub drain_once : (OutboxMessage → Outcome) → ℕ → World → ℕ × World
drain_once outcome batch_size w = drain outcome (fetch_unpublished batch_size w.db) w

-- `run`: one poll after another, with how each poll's publications end
unfoldable pub run : ℕ → List (OutboxMessage → Outcome) → World → World
run batch_size [] w = w
run batch_size (outcome ∷ later) w = run batch_size later (drain_once outcome batch_size w).1
