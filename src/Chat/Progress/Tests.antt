-- ===== src/Chat/Progress/Tests.antt =====
-- Rounds in a quiet room at concrete inputs.
use project_aria.Common.{◌≡◌, refl, false, none, some, [], ◌∷◌}
use project_aria.Common.Int.{pos}
use project_aria.Common.Error.{ok, err, external}
use project_aria.Common.Text.{codes}
use project_aria.Community.Story.{Story, pending, reading, claim_next_pending}
use project_aria.Chat.Coordinator.{is_busy}
use project_aria.Chat.Topic.{Candidate}
use project_aria.Chat.Candidates.{take_all}
use project_aria.Chat.Progress.{Floor, Round, story_plan, ask_of, advance}
use project_aria.Chat.Progress.Rounds.{IsAdvanced, advance-IsAdvanced}
use project_aria.Chat.Progress.Answers.{unmarked, advance_told_again}

abbrev letter : Story
letter = record {
  id = 8;
  persona_id = 5;
  author_id = some 4;
  title = codes "Help";
  content = codes "I cannot sleep.";
  is_anonymous = false;
  relationship_stage = none;
  nickname = some (codes "Owl");
  status = pending;
}

abbrev greeting : Candidate
greeting = record { message_id = 3; author_id = 6; text = codes "hello there"; created_at = pos 30 }

abbrev floor : Floor
floor = record {
  slot = none;
  is_locked = false;
  buffer = [];
  stories = letter ∷ [];
  asks = [];
  touches = [];
}

abbrev spoken_to : Floor
spoken_to = record floor { buffer = none ∷ some greeting ∷ [] }

-- One viewer, and ten seconds of silence
abbrev round : Round
round = record {
  asked_slot = ok tt;
  locked = ok tt;
  taken = ok tt;
  viewers = ok 1;
  silence = ok (some (pos 10));
  claimed = ok tt;
  requested = ok tt;
  marked = ok tt;
  put_back = ok tt;
  unlocked = ok tt;
  touched = ok tt;
}

advance-IsAdvanced_example :
    IsAdvanced
      (ok 1)
      2
      5
      floor
      (advance (record round { requested = err external }) 2 5 (pos 6) floor)
advance-IsAdvanced_example =
    advance-IsAdvanced (record round { requested = err external }) 2 5 (pos 6) floor refl refl
      (tt, tt)

advance_told_again_example :
    let (end, v) = advance (unmarked round 0 (some (pos 10)) external) 2 5 (pos 6) floor in
    (end ≡ err external)
    × (v.asks ≡ ask_of 2 5 (story_plan (record letter { status = reading })).progress ∷ [])
    × (v.stories ≡ floor.stories)
    × ((claim_next_pending 5 v.stories).0 ≡ some (record letter { status = reading }))
unfolding is_busy take_all claim_next_pending
advance_told_again_example =
    advance_told_again round 0 (some (pos 10)) external 2 5 (pos 6) floor
      (record letter { status = reading }) refl refl refl refl (tt, tt) refl
