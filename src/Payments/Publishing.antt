-- ===== src/Payments/Publishing.antt =====
-- Requests and polls in any order: the broker's log and the marks against the payments.
use project_aria.Common.{
  ℕ, ◌≡◌, refl, sym, true, List, [], ◌∷◌, ◌++◌, ◌==◌, All, All-Memᴰ, All-intro, All-append, Memᴰ,
  Memᴰ-append_left, Memᴰ-append_right, Memᴰ-keep, Bool-cases, inl, inr, take, drop,
  take-append-drop,
}
use project_aria.Payments.Model.{OutboxMessage}
use project_aria.Payments.Repository.{
  empty, unpublished, is_unpublished, fetch_unpublished, mark_published,
}
use project_aria.Payments.Relay.{Outcome, World, publish, drain, drain_once}
use project_aria.Payments.Draining.{unpublished-mark, outcome_cases}
use project_aria.Payments.Contract.{IsBacked}
use project_aria.Payments.Explained.{IsOwed, IsExplained}
use project_aria.Payments.Saving.{IsOwed-still}
use project_aria.Payments.Inserting.{All-insert_message}
use project_aria.Payments.Requests.{Request, serve, IsDrawn, serve-cases}
use project_aria.Payments.Serving.{serve-IsExplained, IsOwed-cons}
use project_aria.Payments.Marking.{All-mark, mark_published-IsExplained, message_of_id}

-- The log has this message, under this topic.
abbrev pub IsLogged : List OutboxMessage → OutboxMessage → Type 0
IsLogged log m = (n : OutboxMessage) × Memᴰ n log × (n.topic ≡ m.topic) × (n.payload ≡ m.payload)

pub record IsSound (w : World) : Type 0 where
  pub explained : IsExplained w.db
  pub logged : All (IsOwed w.db.payments) w.log
  pub published : All (λ m. m.published ≡ true → IsLogged w.log m) w.db.outbox

Memᴰ-unpublished :
    (m : OutboxMessage) (ms : List OutboxMessage) → Memᴰ m (unpublished ms) → Memᴰ m ms
Memᴰ-unpublished m ms j = Memᴰ-keep is_unpublished m ms j

IsLogged-more :
    (log : List OutboxMessage) (m o : OutboxMessage) → IsLogged log m → IsLogged (log ++ o ∷ []) m
IsLogged-more log m o (n, j, t, p) = (n, Memᴰ-append_left n log (o ∷ []) j, t, p)

publish-IsSound :
    (m : OutboxMessage) (w : World) → Memᴰ m w.db.outbox → IsSound w → IsSound (publish m w)
publish-IsSound m w i s = record {
  explained = s.explained;
  logged =
      All-append (IsOwed w.db.payments) w.log (m ∷ []) s.logged
        (All-Memᴰ (IsOwed w.db.payments) w.db.outbox m s.explained.owed i, tt);
  published = All-intro _ w.db.outbox λ n j out.
      IsLogged-more w.log n m
        (All-Memᴰ (λ m'. m'.published ≡ true → IsLogged w.log m') w.db.outbox n s.published j out);
}

-- A row may be marked once the log has it.
mark_published-IsSound :
    (m : OutboxMessage) (w : World)
    → Memᴰ m w.db.outbox
    → IsLogged w.log m
    → IsSound w
    → IsSound (record w { db = mark_published m.id w.db })
unfolding mark_published
mark_published-IsSound m w i here s = record {
  explained = mark_published-IsExplained m.id w.db s.explained;
  logged = s.logged;
  published =
      All-mark (λ n. n.published ≡ true → IsLogged w.log n) m.id w.db.outbox
        λ n j. elim (Bool-cases (n.id == m.id)) [
          | inl hit ↦ λ out. rw (hit, message_of_id w.db.outbox n m s.explained.keyed j i hit) here
          | inr miss ↦
              rw miss (
                All-Memᴰ (λ n'. n'.published ≡ true → IsLogged w.log n') w.db.outbox n s.published
                  j)
        ];
}

unpublished-mark_published :
    (m : OutboxMessage) (rest : List OutboxMessage) (w : World)
    → unpublished w.db.outbox ≡ m ∷ rest
    → IsSound w
    → unpublished (mark_published m.id w.db).outbox ≡ rest
unfolding mark_published
unpublished-mark_published m rest w h s = unpublished-mark w.db.outbox m rest s.explained.keyed h

-- The polls of a loop over rows that are the next unpublished ones
pub drain-IsSound :
    (outcome : OutboxMessage → Outcome) (ms rest : List OutboxMessage) (w : World)
    → unpublished w.db.outbox ≡ ms ++ rest
    → IsSound w
    → IsSound (drain outcome ms w).1
unfolding drain
drain-IsSound outcome [] rest w h s = s
drain-IsSound outcome (m ∷ ms) rest w h s =
    let here = Memᴰ-unpublished m w.db.outbox (rw h (Memᴰ.head refl)) in
    let taken = publish-IsSound m w here s in
    elim (outcome_cases (outcome m)) [
      | inl heard ↦ rw heard (
          drain-IsSound outcome ms rest (record (publish m w) { db = mark_published m.id w.db })
            (unpublished-mark_published m (ms ++ rest) w h s)
            (mark_published-IsSound m (publish m w) here
              (m, Memᴰ-append_right m w.log (m ∷ []) (Memᴰ.head refl), refl, refl) taken))
      | inr (inl lost) ↦ rw lost s
      | inr (inr unheard) ↦ rw unheard taken
    ]

pub drain_once-IsSound :
    (outcome : OutboxMessage → Outcome) (batch_size : ℕ) (w : World)
    → IsSound w
    → IsSound (drain_once outcome batch_size w).1
unfolding drain_once fetch_unpublished
drain_once-IsSound outcome batch_size w s =
    drain-IsSound outcome (take batch_size (unpublished w.db.outbox))
      (drop batch_size (unpublished w.db.outbox)) w
      (sym (take-append-drop batch_size (unpublished w.db.outbox))) s

serve-IsSound :
    (r : Request) (w : World) → IsDrawn r → IsSound w → IsSound (record w { db = serve r w.db })
serve-IsSound r w drawn s =
    let e = serve-IsExplained r w.db drawn s.explained in
    elim (serve-cases r w.db drawn) [
      | inl same ↦ rw same s
      | inr (inl (a, i, u)) ↦ record {
        explained = e;
        logged = rw a.written (
            All-intro _ w.log λ m j.
              IsOwed-cons a.payment w.db.payments m
                (All-Memᴰ (IsOwed w.db.payments) w.log m s.logged j));
        published = rw a.written s.published;
      }
      | inr (inr o) ↦ record {
        explained = e;
        logged = rw o.written (
            All-intro _ w.log λ m j.
              IsOwed-still o.purpose o.old o.new o.message w.db s.explained o.member
                (o.step (All-Memᴰ IsBacked w.db.payments o.old s.explained.backed o.member)) m
                (All-Memᴰ (IsOwed w.db.payments) w.log m s.logged j));
        published = rw o.written (
            All-insert_message (λ m. m.published ≡ true → IsLogged w.log m) o.message w.db.outbox
              (λ out. cc (o.unsent, out)) s.published);
      }
    ]

-- One thing that happens: a request, or a poll of the relay
pub data Event : Type 0 where
  request : Request → Event
  poll : (OutboxMessage → Outcome) → ℕ → Event

abbrev pub handle : Event → World → World
handle (request r) w = record w { db = serve r w.db }
handle (poll outcome batch_size) w = (drain_once outcome batch_size w).1

unfoldable pub handle_all : List Event → World → World
handle_all [] w = w
handle_all (e ∷ es) w = handle_all es (handle e w)

abbrev pub IsFair : Event → Type 0
IsFair (request r) = IsDrawn r
IsFair (poll outcome batch_size) = Unit

handle-IsSound : (e : Event) (w : World) → IsFair e → IsSound w → IsSound (handle e w)
handle-IsSound (request r) w drawn s = serve-IsSound r w drawn s
handle-IsSound (poll outcome batch_size) w drawn s = drain_once-IsSound outcome batch_size w s

-- Requests and polls in any order, with any answers of the gateway and of the broker, keep this:
-- the payments and their outbox are in step, every message in the broker's log tells of a payment
-- whose status owes it, and a row is marked only if the log has its message. The condition is that
-- new payments have UUIDs.
pub handle_all-IsSound :
    (es : List Event) (w : World) → All IsFair es → IsSound w → IsSound (handle_all es w)
unfolding handle_all
handle_all-IsSound [] w fair s = s
handle_all-IsSound (e ∷ es) w fair s =
    handle_all-IsSound es (handle e w) fair.1 (handle-IsSound e w fair.0 s)

abbrev pub start : World
start = record { db = empty; log = [] }

pub start-IsSound : IsSound start
start-IsSound = record {
  explained = record { backed = tt; distinct = tt; keyed = tt; owed = tt; announced = tt };
  logged = tt;
  published = tt;
}
