-- ===== src/Chat/Idle.antt =====
-- workers/idle.py: one turn of the idle worker over the live rooms. The settings are arguments. The
-- rooms share the table of stories; what else a round of progress changes is one room's own.
use project_aria.Common.{
  ℕ, suc, Bool, true, false, Option, none, some, List, [], ◌∷◌, ◌==◌, if◌then◌else◌, ltb,
}
use project_aria.Common.Int.{ℤ, pos}
use project_aria.Common.Error.{Error, Result, ok, err}
use project_aria.Community.Story.{Story}
use project_aria.Chat.Room.{Room}
use project_aria.Chat.Room.Service.{list_live, close_if_abandoned}
use project_aria.Chat.Ask.{Progress}
use project_aria.Chat.Progress.{Floor, Round, advance}
pub mod Starving
pub mod Turning
mod Tests

pub record Settings : Type 0 where
  pub rooms_per_tick : ℕ
  pub threshold : ℤ
  pub abandon : ℤ

pub record Station : Type 0 where
  pub rooms : List Room
  pub stories : List Story
  pub floors : ℕ → Floor

-- What the calls for one room answer: how many viewers it has, when something last happened in it,
-- the time, and how the calls of its round end
pub record Visit : Type 0 where
  pub viewers : Result ℕ
  pub silence : Result (Option ℤ)
  pub now : ℤ
  pub round : Round

abbrev heard : Settings → Visit → Room → List Room → ℕ → Result (Option ℤ) → Result Bool × List Room
heard c v room rs n (err x) = (err x, rs)
heard c v room rs n (ok since) = close_if_abandoned c.abandon n since v.now room rs

-- `close_if_abandoned`, with the two calls that it makes first
abbrev pub looked : Settings → Visit → Room → List Room → Result ℕ → Result Bool × List Room
looked c v room rs (err x) = (err x, rs)
looked c v room rs (ok n) = if ltb 0 n then (ok false, rs) else heard c v room rs n v.silence

abbrev pub put_floor : ℕ → Floor → Station → Station
put_floor i w st = record st {
  stories = w.stories;
  floors = λ j. if j == i then w else st.floors j;
}

-- Whether the round counts
abbrev pub outcome_of : Result (Option Progress) → Bool
outcome_of (err x) = false
outcome_of (ok none) = false
outcome_of (ok (some p)) = true

abbrev pub with_outcome : ℕ → Station → Result (Option Progress) × Floor → Bool × Station
with_outcome i st (end, w) = (outcome_of end, put_floor i w st)

-- What follows the closer, with whatever is raised caught
abbrev pub unless_closed :
    Settings → Visit → Room → Station → Result Bool × List Room → Bool × Station
unless_closed c v room st (err x, rs) = (false, record st { rooms = rs })
unless_closed c v room st (ok true, rs) = (false, record st { rooms = rs })
unless_closed c v room st (ok false, rs) =
    with_outcome room.id (record st { rooms = rs })
      (advance v.round room.id room.persona_id c.threshold
        (record (st.floors room.id) { stories = st.stories }))

-- The body of the loop
unfoldable pub visit : Settings → (ℕ → Visit) → Room → Station → Bool × Station
visit c vs room st =
    let v = vs room.id in unless_closed c v room st (looked c v room st.rooms v.viewers)

abbrev pub add_one : Bool → ℕ × Station → ℕ × Station
add_one advanced (n, st) = (if advanced then suc n else n, st)

unfoldable pub visit_all : Settings → (ℕ → Visit) → List Room → Station → ℕ × Station
unfolding visit
visit_all c vs [] st = (0, st)
visit_all c vs (room ∷ rooms) st =
    let (advanced, st') = visit c vs room st in add_one advanced (visit_all c vs rooms st')

-- `tick`
unfoldable pub tick : Settings → (ℕ → Visit) → Station → ℕ × Station
unfolding visit_all
tick c vs st = visit_all c vs (list_live c.rooms_per_tick (pos 0) st.rooms) st
