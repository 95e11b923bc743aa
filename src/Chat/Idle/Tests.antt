-- ===== src/Chat/Idle/Tests.antt =====
-- Turns of the idle worker at concrete inputs.
use project_aria.Common.{ℕ, ◌≡◌, refl, false, none, some, [], ◌∷◌, ◌==◌, if◌then◌else◌, arith}
use project_aria.Common.Int.{pos}
use project_aria.Common.Error.{ok, err, external}
use project_aria.Common.Text.{codes}
use project_aria.Chat.Coordinator.{is_busy}
use project_aria.Chat.Room.{Room, live}
use project_aria.Chat.Room.Service.{list_live, list_live_rows}
use project_aria.Chat.Topic.{Candidate}
use project_aria.Chat.Candidates.{take_all}
use project_aria.Chat.Progress.{Floor, Round}
use project_aria.Chat.Idle.{Settings, Station, Visit, tick}
use project_aria.Chat.Idle.Starving.{ticks, IsWatched, ticks_starve}
use project_aria.Chat.Idle.Turning.{IsWaiting, IsAnswered, tick-answers}

abbrev on_air : (i : ℕ) → Room
on_air i = record {
  id = i;
  persona_id = i;
  host_id = 2;
  name = codes "evening";
  description = none;
  thumbnail_url = none;
  topic = [];
  status = live;
  created_at = pos i;
  closed_at = none;
}

abbrev quiet : Floor
quiet = record {
  slot = none;
  is_locked = false;
  buffer = [];
  stories = [];
  asks = [];
  touches = [];
}

abbrev question : Candidate
question = record { message_id = 3; author_id = 6; text = codes "why?"; created_at = pos 30 }

abbrev asked : Floor
asked = record quiet { buffer = some question ∷ [] }

-- Three live rooms, with someone asking in each
abbrev station : Station
station = record { rooms = on_air 3 ∷ on_air 2 ∷ on_air 1 ∷ []; stories = []; floors = λ _. asked }

abbrev settings : Settings
settings = record { rooms_per_tick = 2; threshold = pos 6; abandon = pos 1800 }

abbrev round : Round
round = record {
  asked_slot = ok tt;
  locked = ok tt;
  taken = ok tt;
  viewers = ok 1;
  silence = ok (some (pos 10));
  claimed = ok tt;
  requested = ok tt;
  marked = ok tt;
  put_back = ok tt;
  unlocked = ok tt;
  touched = ok tt;
}

abbrev watched_by_one : ℕ → Visit
watched_by_one i = record {
  viewers = ok 1;
  silence = ok (some (pos 10));
  now = pos 100;
  round = round;
}

everywhere : IsWatched watched_by_one
everywhere i = (1, refl, omega arith)

-- The third room is not among the two that a turn takes.
ticks_starve_example :
    ((ticks settings (watched_by_one ∷ watched_by_one ∷ []) station).rooms ≡ station.rooms)
    × ((ticks settings (watched_by_one ∷ watched_by_one ∷ []) station).floors 1 ≡ asked)
unfolding list_live list_live_rows
ticks_starve_example =
    ticks_starve settings (watched_by_one ∷ watched_by_one ∷ []) station 1
      ((λ e. omega arith), ((λ e. omega arith), tt)) (everywhere, (everywhere, tt))

-- In the newest room the count of the viewers fails.
abbrev failing : ℕ → Visit
failing i = record (watched_by_one i) { viewers = if i == 3 then err external else ok 1 }

waiting : IsWaiting (failing 2) round asked
unfolding is_busy take_all
waiting = record {
  watchers = 0;
  watched = refl;
  clearly = refl;
  idle = refl;
  free = refl;
  full = λ e. cc;
}

tick-answers_example : IsAnswered (on_air 2) asked (tick settings failing station)
unfolding list_live list_live_rows
tick-answers_example =
    tick-answers settings failing station round (on_air 2) (on_air 3 ∷ []) [] refl
      ((λ e. omega arith), tt) tt waiting
