-- ===== src/Chat/Progress.antt =====
-- chat/application/progress.py: what the persona says next in one room, with the lock of
-- adapter/outbound/redis/idle_lock.py and the silence of adapter/outbound/redis/activity.py.
mod Tests
mod Stories
pub mod Advancing
pub mod Carrying
pub mod Rounds
pub mod Answers
use project_aria.Common.{
  ℕ, zero, suc, Bool, true, false, Option, none, some, is_some, List, [], ◌∷◌, ◌++◌, if◌then◌else◌,
  length,
}
use project_aria.Common.Int.{ℤ, leb_ℤ}
use project_aria.Common.Error.{Error, Result, ok, err}
use project_aria.Common.Text.{Text, codes}
use project_aria.Community.Story.{Story, claim_next_pending, mark_done, release_story}
use project_aria.Chat.Coordinator.{ChatSource, chat, story, idle, Lock, is_busy}
use project_aria.Chat.Topic.{Candidate, Topic, Scored, select_best}
use project_aria.Chat.Topic.Lexical.{cluster}
use project_aria.Chat.Candidates.{Entry, take_all}
use project_aria.Chat.Ask.{Ask, Progress, selection_metadata}

-- What a round in one room reads and writes: the response slot and the idle lock of the room, its
-- candidates, all stories, the requests that went out and the rooms touched, the newest first.
pub record Floor : Type 0 where
  pub slot : Lock
  pub is_locked : Bool
  pub buffer : List Entry
  pub stories : List Story
  pub asks : List Ask
  pub touches : List ℕ

-- How the calls of a round end. One that raises has done nothing. `viewers` and `silence` are what
-- Redis answers.
pub record Round : Type 0 where
  pub asked_slot : Result (Unit {0})
  pub locked : Result (Unit {0})
  pub taken : Result (Unit {0})
  pub viewers : Result ℕ
  pub silence : Result (Option ℤ)
  pub claimed : Result (Unit {0})
  pub requested : Result (Unit {0})
  pub marked : Result (Unit {0})
  pub put_back : Result (Unit {0})
  pub unlocked : Result (Unit {0})
  pub touched : Result (Unit {0})

-- `_story_prompt`
abbrev who : Option Text → Text
who none = codes "한 시청자가"
who (some []) = codes "한 시청자가"
who (some (c ∷ t)) = (c ∷ t) ++ codes "님이"

unfoldable pub story_prompt : Story → Text
story_prompt s =
    who s.nickname
    ++ (codes " 이런 사연을 보냈습니다.\n제목: "
        ++ (s.title ++ (codes "\n내용: " ++ (s.content ++ codes "\n읽어 주고 공감과 조언을 건네세요."))))

abbrev pub self_talk_prompt : Text
self_talk_prompt = codes "지금 채팅이 조용합니다. 시청자에게 먼저 말을 걸어 주세요 — 혼잣말이나 가볍게 답할 수 있는 질문이면 좋습니다."

-- `_Plan`
pub record Plan : Type 0 where
  pub progress : Progress
  pub story : Option Story

abbrev pub plain : ChatSource → Text → Progress
plain source prompt = record {
  source = source;
  prompt = prompt;
  selection = none;
  candidate_count = 0;
  topic_count = 0;
}

abbrev pub answer_plan : List Candidate → List Topic → Scored → Plan
answer_plan cs ts best = record {
  progress = record {
    source = chat;
    prompt = best.candidate.text;
    selection = some best;
    candidate_count = length cs;
    topic_count = length ts;
  };
  story = none;
}

abbrev pub story_plan : Story → Plan
story_plan s = record { progress = plain story (story_prompt s); story = some s }

abbrev pub talk_plan : Plan
talk_plan = record { progress = plain idle self_talk_prompt; story = none }

-- A call and what follows it; a call that raises ends everything.
abbrev pub after {ℓ κ} :
    {A : Type ℓ} {B : Type κ} → Result A → (A → Floor → Result B × Floor) → Floor → Result B × Floor
after (ok a) rest w = rest a w
after (err x) rest w = (err x, w)

-- `is_idle`
abbrev pub is_idle : ℤ → Option ℤ → Bool
is_idle threshold none = true
is_idle threshold (some elapsed) = leb_ℤ threshold elapsed

abbrev pub claim_plan : Option Story × List Story → Floor → Result (Option Plan) × Floor
claim_plan (none, ss) w = (ok (some talk_plan), record w { stories = ss })
claim_plan (some s, ss) w = (ok (some (story_plan s)), record w { stories = ss })

abbrev quiet_plan : Round → ℕ → ℤ → (viewers : ℕ) → Floor → Result (Option Plan) × Floor
quiet_plan r persona threshold zero w = (ok none, w)
quiet_plan r persona threshold (suc n) w =
    after r.silence
      (λ elapsed w1.
        if is_idle threshold elapsed
        then after r.claimed (λ _ w2. claim_plan (claim_next_pending persona w2.stories) w2) w1
        else (ok none, w1))
      w

-- The part of `_plan` about what nobody asked for
unfoldable pub uninvited : Round → ℕ → ℤ → Floor → Result (Option Plan) × Floor
uninvited r persona threshold = after r.viewers (quiet_plan r persona threshold)

abbrev pub chosen_plan :
    Round
    → ℕ
    → ℤ
    → List Candidate
    → List Topic
    → Option Scored
    → Floor
    → Result (Option Plan) × Floor
chosen_plan r persona threshold cs ts none w = uninvited r persona threshold w
chosen_plan r persona threshold cs ts (some best) w = (ok (some (answer_plan cs ts best)), w)

abbrev pub batch_plan : Round → ℕ → ℤ → List Candidate → Floor → Result (Option Plan) × Floor
batch_plan r persona threshold [] w = uninvited r persona threshold w
batch_plan r persona threshold (c ∷ cs) w =
    let ts = cluster (c ∷ cs) in chosen_plan r persona threshold (c ∷ cs) ts (select_best ts) w

-- `_plan`
unfoldable pub plan : Round → ℕ → ℤ → Floor → Result (Option Plan) × Floor
unfolding uninvited
plan r persona threshold = after r.taken λ _ w.
    let (cs, rest) = take_all w.buffer in
    batch_plan r persona threshold cs (record w { buffer = rest })

abbrev pub ask_of : ℕ → ℕ → Progress → Ask
ask_of room persona p = record {
  room_id = room;
  persona_id = persona;
  source = p.source;
  prompt = p.prompt;
  selection = selection_metadata p;
}

abbrev mark_story : Round → Option Story → Floor → Result (Unit {0}) × Floor
mark_story r none w = (ok tt, w)
mark_story r (some s) w =
    after r.marked (λ _ w1. (ok tt, record w1 { stories = mark_done s.id w1.stories })) w

-- The request, and the story marked as read
unfoldable pub carry_out : Round → (room persona : ℕ) → Plan → Floor → Result (Unit {0}) × Floor
unfolding selection_metadata
carry_out r room persona p =
    after r.requested
      λ _ w. mark_story r p.story (record w { asks = ask_of room persona p.progress ∷ w.asks })

abbrev put_story_back : Round → Option Story → Error → Floor → Result (Option Progress) × Floor
put_story_back r none x w = (err x, w)
put_story_back r (some s) x w =
    after r.put_back (λ _ w1. (err x, record w1 { stories = release_story s.id w1.stories })) w

abbrev pub carried : Round → Plan → Result (Unit {0}) × Floor → Result (Option Progress) × Floor
carried r p (ok _, w) = (ok (some p.progress), w)
carried r p (err x, w) = put_story_back r p.story x w

abbrev pub planned :
    Round → (room persona : ℕ) → Result (Option Plan) × Floor → Result (Option Progress) × Floor
planned r room persona (err x, w) = (err x, w)
planned r room persona (ok none, w) = (ok none, w)
planned r room persona (ok (some p), w) = carried r p (carry_out r room persona p w)

-- The `try` with its `except`
unfoldable pub attempt : Round → (room persona : ℕ) → ℤ → Floor → Result (Option Progress) × Floor
unfolding plan carry_out
attempt r room persona threshold w = planned r room persona (plan r persona threshold w)

-- `finally`: the lock is given back, and a failure of that is what is raised.
abbrev pub unlocking : Round → Result (Option Progress) × Floor → Result (Option Progress) × Floor
unlocking r (end, w) = after r.unlocked (λ _ w1. (end, record w1 { is_locked = false })) w

abbrev pub touching :
    Round → ℕ → Result (Option Progress) × Floor → Result (Option Progress) × Floor
touching r room (err x, w) = (err x, w)
touching r room (ok none, w) = (ok none, w)
touching r room (ok (some p), w) =
    after r.touched (λ _ w1. (ok (some p), record w1 { touches = room ∷ w1.touches })) w

abbrev pub with_lock : Round → (room persona : ℕ) → ℤ → Floor → Result (Option Progress) × Floor
with_lock r room persona threshold w =
    if w.is_locked
    then (ok none, w)
    else touching r room
        (unlocking r (attempt r room persona threshold (record w { is_locked = true })))

-- `advance`
unfoldable pub advance : Round → (room persona : ℕ) → ℤ → Floor → Result (Option Progress) × Floor
unfolding attempt is_busy
advance r room persona threshold = after r.asked_slot λ _ w.
    if is_busy w.slot
    then (ok none, w)
    else after r.locked (λ _. with_lock r room persona threshold) w
