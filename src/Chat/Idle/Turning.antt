-- ===== src/Chat/Idle/Turning.antt =====
-- The rooms that a turn of the idle worker takes.
use project_aria.Common.{
  ℕ, suc, ◌<◌, ◌≤◌, ◌≡◌, ◌≢◌, refl, sym, ap, ◌∙◌, subst, Bool, true, false, List, [], ◌∷◌, ◌++◌,
  ◌==◌, All, arith, if_true, if_false, if◌then◌else◌, Bool-cases, inl, inr, eq_refl,
}
use project_aria.Common.Int.{pos}
use project_aria.Common.Error.{Result, ok, err}
use project_aria.Chat.Room.{Room}
use project_aria.Chat.Room.Service.{list_live}
use project_aria.Chat.Topic.{Scored}
use project_aria.Chat.Topic.Lexical.{cluster}
use project_aria.Chat.Candidates.{take_all}
use project_aria.Chat.Ask.{Progress}
use project_aria.Chat.Coordinator.{is_busy}
use project_aria.Chat.Topic.Partition.{IsAnswer}
use project_aria.Chat.Progress.{Floor, Round, answer_plan, ask_of, advance}
use project_aria.Chat.Progress.Answers.{clear, answered, advance-answers}
use project_aria.Chat.Idle.{
  Settings, Station, Visit, looked, with_outcome, unless_closed, visit, visit_all, tick,
}
use project_aria.Chat.Idle.Starving.{looked-watched}

unless_closed_other :
    (c : Settings) (v : Visit) (room : Room) (st : Station) (out : Result Bool × List Room) (i : ℕ)
    → room.id ≢ i
    → (unless_closed c v room st out).1.floors i ≡ st.floors i
unless_closed_other c v room st (err x, rs) i other = refl
unless_closed_other c v room st (ok true, rs) i other = refl
unless_closed_other c v room st (ok false, rs) i other =
    let apart : (i == room.id) ≡ false = ground arith in if_false _ _ apart

visit_all_other :
    (c : Settings) (vs : ℕ → Visit) (rooms : List Room) (st : Station) (i : ℕ)
    → All (λ r. r.id ≢ i) rooms
    → (visit_all c vs rooms st).1.floors i ≡ st.floors i
unfolding visit_all visit
visit_all_other c vs [] st i other = refl
visit_all_other c vs (room ∷ rooms) st i (apart, other) =
    visit_all_other c vs rooms (visit c vs room st).1 i other
    ∙ unless_closed_other c (vs room.id) room st
        (looked c (vs room.id) room st.rooms (vs room.id).viewers) i apart

visit_all-append :
    (c : Settings) (vs : ℕ → Visit) (xs ys : List Room) (st : Station)
    → ((visit_all c vs (xs ++ ys) st).1 ≡ (visit_all c vs ys (visit_all c vs xs st).1).1)
      × ((visit_all c vs ys (visit_all c vs xs st).1).0 ≤ (visit_all c vs (xs ++ ys) st).0)
unfolding visit_all
visit_all-append c vs [] ys st = (refl, omega arith)
visit_all-append c vs (x ∷ xs) ys st =
    let (same, fewer) = visit_all-append c vs xs ys (visit c vs x st).1 in
    (
      same,
      elim (Bool-cases (visit c vs x st).0) [
        | inl counted ↦ rw counted (omega (arith, fewer))
        | inr passed ↦ rw passed fewer
      ],
    )

-- A room with a viewer in which nothing is being said and someone waits for an answer
pub record IsWaiting (v : Visit) (r : Round) (w : Floor) : Type 0 where
  pub watchers : ℕ
  pub watched : v.viewers ≡ ok (suc watchers)
  pub clearly : v.round ≡ clear r
  pub idle : is_busy w.slot ≡ false
  pub free : w.is_locked ≡ false
  pub full : (take_all w.buffer).0 ≢ []

abbrev pub answer_to : Floor → Scored → Progress
answer_to w s = (answer_plan (take_all w.buffer).0 (cluster (take_all w.buffer).0) s).progress

visit-answers :
    (c : Settings) (vs : ℕ → Visit) (room : Room) (r : Round) (st : Station)
    → IsWaiting (vs room.id) r (st.floors room.id)
    → (s : Scored) × IsAnswer (take_all (st.floors room.id).buffer).0 s
      × ((visit c vs room st).0 ≡ true)
      × ((visit c vs room st).1.floors room.id
          ≡ answered r room.id room.persona_id c.threshold
              (record (st.floors room.id) { stories = st.stories })
              (answer_to (st.floors room.id) s))
unfolding visit
visit-answers c vs room r st waits =
    let w = st.floors room.id in
    let (s, best, told) =
      advance-answers r room.id room.persona_id c.threshold (record w { stories = st.stories })
        waits.idle waits.free waits.full in
    let watched =
      looked-watched c (vs room.id) room st.rooms (suc waits.watchers) waits.watched
        (omega arith) in
    let end =
      ap (unless_closed c (vs room.id) room st) watched
      ∙ ap
          (λ round.
            with_outcome room.id st (
              advance round room.id room.persona_id c.threshold
                (record w { stories = st.stories })))
          waits.clearly
      ∙ ap (with_outcome room.id st) told in
    (s, best, ap (λ o. o.0) end, ap (λ o. o.1.floors room.id) end ∙ if_true _ _ (eq_refl room.id))

-- A turn has asked for an answer to a best candidate of a room, and has counted that
abbrev pub IsAnswered : Room → Floor → ℕ × Station → Type 0
IsAnswered room w out =
    (s : Scored) × IsAnswer (take_all w.buffer).0 s
    × ((out.1.floors room.id).asks ≡ ask_of room.id room.persona_id (answer_to w s) ∷ w.asks)
    × (0 < out.0)

visit_all-IsAnswered :
    (c : Settings) (vs : ℕ → Visit) (st : Station) (r : Round) (room : Room)
    (front back : List Room)
    → All (λ q. q.id ≢ room.id) back
    → IsWaiting (vs room.id) r ((visit_all c vs front st).1.floors room.id)
    → IsAnswered room
        ((visit_all c vs front st).1.floors room.id)
        (visit_all c vs (front ++ room ∷ back) st)
unfolding visit_all
visit_all-IsAnswered c vs st r room front back after waits =
    let st1 = (visit_all c vs front st).1 in
    let (s, best, counted, told) = visit-answers c vs room r st1 waits in
    let (same, fewer) = visit_all-append c vs front (room ∷ back) st in
    let rest = visit_all_other c vs back (visit c vs room st1).1 room.id after in
    let n = (visit_all c vs back (visit c vs room st1).1).0 in
    let one : (if (visit c vs room st1).0 then suc n else n) ≡ suc n = if_true _ _ counted in
    (
      s,
      best,
      ap (λ x. (x.floors room.id).asks) same ∙ ap (λ w. w.asks) rest ∙ ap (λ w. w.asks) told,
      omega (arith, one, fewer),
    )

-- A live room that a turn takes, with a viewer, its slot and lock free, a candidate that reads, and
-- no call failing of those that lead to its request: the turn asks for an answer to a best candidate
-- of that room and counts it, whatever happens in the other rooms, closed or failed. No two rooms
-- of the turn have one identifier.
pub tick-answers :
    (c : Settings) (vs : ℕ → Visit) (st : Station) (r : Round) (room : Room)
    (front back : List Room)
    → list_live c.rooms_per_tick (pos 0) st.rooms ≡ front ++ room ∷ back
    → All (λ q. q.id ≢ room.id) front
    → All (λ q. q.id ≢ room.id) back
    → IsWaiting (vs room.id) r (st.floors room.id)
    → IsAnswered room (st.floors room.id) (tick c vs st)
unfolding tick
tick-answers c vs st r room front back listed before after waits =
    let same = visit_all_other c vs front st room.id before in
    let turn =
      visit_all-IsAnswered c vs st r room front back after
        (subst (IsWaiting (vs room.id) r) (sym same) waits) in
    subst (λ rooms. IsAnswered room (st.floors room.id) (visit_all c vs rooms st)) (sym listed)
      (subst (λ w. IsAnswered room w (visit_all c vs (front ++ room ∷ back) st)) same turn)
