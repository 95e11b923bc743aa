-- ===== src/Payments/Draining.antt =====
-- What a poll of the relay does to the outbox and to the broker's log.
use project_aria.Common.{
  append-nil, append_assoc, ℕ, suc, zero, ◌*◌, ◌-◌, ◌≤◌, ◌≡◌, ◌⊎◌, refl, ap, ◌∙◌, sym, false, List,
  [], ◌∷◌, ◌++◌, arith, length, take, drop, All, Bool-cases, inl, inr, take-append-drop,
}
use project_aria.Payments.Model.{OutboxMessage}
use project_aria.Payments.Repository.{
  message_id_used, unpublished, fetch_unpublished, mark, mark_published,
}
use project_aria.Payments.Relay.{
  Outcome, acknowledged, refused, unacknowledged, World, publish, drain, drain_once, run,
}

-- The primary key of the outbox
abbrev pub IsKeyed : List OutboxMessage → Type 0
IsKeyed [] = Unit
IsKeyed (m ∷ ms) = (message_id_used m.id ms ≡ false) × IsKeyed ms

mark_unused : (i : ℕ) (ms : List OutboxMessage) → message_id_used i ms ≡ false → mark i ms ≡ ms
mark_unused i [] h = refl
mark_unused i (m ∷ ms) h = ground (arith, mark_unused i ms)

pub unpublished-mark :
    (ms : List OutboxMessage) (m : OutboxMessage) (rest : List OutboxMessage)
    → IsKeyed ms
    → unpublished ms ≡ m ∷ rest
    → unpublished (mark m.id ms) ≡ rest
unpublished-mark [] m rest k h = cc
unpublished-mark (n ∷ ms) m rest k h = elim (Bool-cases n.published) [
  | inl out ↦ ground (arith, unpublished-mark ms m rest k.1)
  | inr waiting ↦ ground (arith, mark_unused m.id ms, k.0)
]

message_id_used-mark :
    (i j : ℕ) (ms : List OutboxMessage) → message_id_used i (mark j ms) ≡ message_id_used i ms
message_id_used-mark i j [] = refl
message_id_used-mark i j (m ∷ ms) = ground (arith, message_id_used-mark i j ms)

pub IsKeyed-mark : (j : ℕ) (ms : List OutboxMessage) → IsKeyed ms → IsKeyed (mark j ms)
IsKeyed-mark j [] k = tt
IsKeyed-mark j (m ∷ ms) k = (ground (arith, message_id_used-mark m.id j ms), IsKeyed-mark j ms k.1)

abbrev counted : Outcome → ℕ → ℕ
counted acknowledged n = suc n
counted refused n = 0
counted unacknowledged n = 0

-- The messages that go out and are marked: those before the first failure
abbrev pub acknowledged_count : (OutboxMessage → Outcome) → List OutboxMessage → ℕ
acknowledged_count outcome [] = 0
acknowledged_count outcome (m ∷ ms) = counted (outcome m) (acknowledged_count outcome ms)

abbrev taken_with : Outcome → OutboxMessage → List OutboxMessage → List OutboxMessage
taken_with acknowledged m rest = m ∷ rest
taken_with refused m rest = []
taken_with unacknowledged m rest = m ∷ []

-- Those that the broker takes: the same, and one that is not marked although it went out
abbrev pub sent : (OutboxMessage → Outcome) → List OutboxMessage → List OutboxMessage
sent outcome [] = []
sent outcome (m ∷ ms) = taken_with (outcome m) m (sent outcome ms)

pub record IsDrained (outcome : OutboxMessage → Outcome) (ms : List OutboxMessage) (w : World)
    (out : ℕ × World) : Type 0 where
  pub count : out.0 ≡ acknowledged_count outcome ms
  pub log : out.1.log ≡ w.log ++ sent outcome ms
  pub left :
      unpublished out.1.db.outbox ≡ drop (acknowledged_count outcome ms) (unpublished w.db.outbox)
  pub payments : out.1.db.payments ≡ w.db.payments
  pub keyed : IsKeyed out.1.db.outbox

pub outcome_cases : (o : Outcome) → (o ≡ acknowledged) ⊎ ((o ≡ refused) ⊎ (o ≡ unacknowledged))
outcome_cases acknowledged = inl refl
outcome_cases refused = inr (inl refl)
outcome_cases unacknowledged = inr (inr refl)

pub drain-IsDrained :
    (outcome : OutboxMessage → Outcome) (ms rest : List OutboxMessage) (w : World)
    → IsKeyed w.db.outbox
    → unpublished w.db.outbox ≡ ms ++ rest
    → IsDrained outcome ms w (drain outcome ms w)
unfolding drain mark_published
drain-IsDrained outcome [] rest w k h = record {
  count = refl;
  log = sym (append-nil w.log);
  left = refl;
  payments = refl;
  keyed = k;
}
drain-IsDrained outcome (m ∷ ms) rest w k h = elim (outcome_cases (outcome m)) [
  | inl taken ↦
      let next = record (publish m w) { db = mark_published m.id w.db } in
      let d =
        drain-IsDrained outcome ms rest next (IsKeyed-mark m.id w.db.outbox k)
          (unpublished-mark w.db.outbox m (ms ++ rest) k h) in
      rw taken (record {
        count = rw taken (ap suc d.count);
        log = rw taken (d.log ∙ append_assoc w.log (m ∷ []) (sent outcome ms));
        left = rw (taken, h) (d.left ∙ rw (unpublished-mark w.db.outbox m (ms ++ rest) k h));
        payments = d.payments;
        keyed = d.keyed;
      })
  | inr (inl lost) ↦ rw lost (record {
    count = rw lost;
    log = rw lost (sym (append-nil w.log));
    left = rw lost;
    payments = refl;
    keyed = k;
  })
  | inr (inr unheard) ↦ rw unheard (record {
    count = rw unheard;
    log = rw unheard;
    left = rw unheard;
    payments = refl;
    keyed = k;
  })
]

-- One poll counts the messages of its batch before the first that fails, appends to the broker's
-- log those and at most the one that failed, in their order, takes from the unpublished rows
-- exactly those that it counts, and touches no payment, if the outbox has its primary key.
pub drain_once-IsDrained :
    (outcome : OutboxMessage → Outcome) (batch_size : ℕ) (w : World)
    → IsKeyed w.db.outbox
    → IsDrained outcome (fetch_unpublished batch_size w.db) w (drain_once outcome batch_size w)
unfolding drain_once fetch_unpublished
drain_once-IsDrained outcome batch_size w k =
    drain-IsDrained outcome (take batch_size (unpublished w.db.outbox))
      (drop batch_size (unpublished w.db.outbox)) w k
      (sym (take-append-drop batch_size (unpublished w.db.outbox)))

abbrev pub IsReliable : (OutboxMessage → Outcome) → Type 0
IsReliable outcome = (m : OutboxMessage) → outcome m ≡ acknowledged

acknowledged_all :
    (outcome : OutboxMessage → Outcome) (ms : List OutboxMessage)
    → IsReliable outcome
    → acknowledged_count outcome ms ≡ length ms
acknowledged_all outcome [] up = refl
acknowledged_all outcome (m ∷ ms) up = ground (arith, up m, acknowledged_all outcome ms up)

length-drop-take :
    (n : ℕ) (ms : List OutboxMessage) → length (drop (length (take n ms)) ms) ≡ length ms - n
length-drop-take zero ms = omega arith
length-drop-take (suc n) [] = omega arith
length-drop-take (suc n) (m ∷ ms) = omega (arith, length-drop-take n ms)

-- With the broker up, polls that together have room for the unpublished rows leave none, from any
-- outbox with its primary key: a retry resumes where the last one stopped.
pub run_drains :
    (batch_size : ℕ) (polls : List (OutboxMessage → Outcome)) (w : World)
    → IsKeyed w.db.outbox
    → All IsReliable polls
    → length (unpublished w.db.outbox) ≤ length polls * batch_size
    → unpublished (run batch_size polls w).db.outbox ≡ []
unfolding run fetch_unpublished
run_drains batch_size [] w k up room = none_left (unpublished w.db.outbox) (omega arith)
  where
    none_left : (ms : List OutboxMessage) → length ms ≤ 0 → ms ≡ []
    none_left [] h = refl
    none_left (m ∷ ms) h = ground arith
run_drains batch_size (outcome ∷ polls) w k up room =
    let d = drain_once-IsDrained outcome batch_size w k in
    let fewer : length (unpublished (drain_once outcome batch_size w).1.db.outbox)
        ≡ length (unpublished w.db.outbox) - batch_size =
      ap length d.left
      ∙ rw (acknowledged_all outcome (take batch_size (unpublished w.db.outbox)) up.0)
          (length-drop-take batch_size (unpublished w.db.outbox)) in
    run_drains batch_size polls (drain_once outcome batch_size w).1 d.keyed up.1
      (omega (arith, fewer))
