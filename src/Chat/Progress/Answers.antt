-- ===== src/Chat/Progress/Answers.antt =====
-- A round that answers a candidate, and one that fails between the request and the mark.
use project_aria.Common.{
  ℕ, suc, ◌≡◌, ◌≢◌, refl, ap, ◌∙◌, subst, true, false, Option, none, some, inl, inr, List, [], ◌∷◌,
  if_false,
}
use project_aria.Common.Int.{ℤ}
use project_aria.Common.Error.{Error, ok, err}
use project_aria.Community.Story.{Story, claim_next_pending, release_story}
use project_aria.Community.Reading.{IsClaimed, claim_next_pending-IsClaimed}
use project_aria.Chat.Coordinator.{is_busy}
use project_aria.Chat.Topic.{Candidate, Scored, select_best}
use project_aria.Chat.Topic.Lexical.{cluster}
use project_aria.Chat.Topic.Partition.{IsAnswer, select_best-cluster}
use project_aria.Chat.Candidates.{take_all}
use project_aria.Chat.Ask.{Progress}
use project_aria.Chat.Progress.Stories.{IsUnique, release_story-claimed}
use project_aria.Chat.Progress.{
  Floor, Round, answer_plan, story_plan, is_idle, uninvited, ask_of, batch_plan, plan, carry_out,
  attempt, with_lock, advance,
}

-- A round whose calls about the slot, the lock, the candidates and the request end well
abbrev pub clear : Round → Round
clear r = record r {
  asked_slot = ok tt;
  locked = ok tt;
  taken = ok tt;
  requested = ok tt;
  unlocked = ok tt;
  touched = ok tt;
}

batch_plan-answers :
    (r : Round) (persona : ℕ) (threshold : ℤ) (cs : List Candidate) (s : Scored) (w : Floor)
    → cs ≢ []
    → select_best (cluster cs) ≡ some s
    → batch_plan r persona threshold cs w ≡ (ok (some (answer_plan cs (cluster cs) s)), w)
batch_plan-answers r persona threshold [] s w full e = absurd (full refl)
batch_plan-answers r persona threshold (c ∷ cs) s w full e = rw e refl

module _ (r : Round) (room persona : ℕ) (threshold : ℤ) (w : Floor) where
  abbrev batch : List Candidate
  batch = (take_all w.buffer).0

  -- The room after an answer
  abbrev pub answered : Progress → Floor
  answered p = record w {
    is_locked = false;
    buffer = (take_all w.buffer).1;
    asks = ask_of room persona p ∷ w.asks;
    touches = room ∷ w.touches;
  }

  -- A round in a room whose slot and lock are free and which has a candidate that reads, with no
  -- call of those that lead to the request failing: whether anyone watches or not, it asks for an
  -- answer to one of the candidates, to a best one, takes all of them from the buffer, gives the
  -- lock back, touches the room and changes no story.
  pub advance-answers :
      is_busy w.slot ≡ false
      → w.is_locked ≡ false
      → (take_all w.buffer).0 ≢ []
      → (s : Scored) × IsAnswer (take_all w.buffer).0 s
        × (advance (clear r) room persona threshold w ≡ (
          ok (some (answer_plan (take_all w.buffer).0 (cluster (take_all w.buffer).0) s).progress),
          answered (answer_plan (take_all w.buffer).0 (cluster (take_all w.buffer).0) s).progress,
        ))
  unfolding advance attempt plan carry_out
  advance-answers idle free full =
      let (s, e, best) = select_best-cluster batch full in
      let entered = record w { is_locked = true; buffer = (take_all w.buffer).1 } in
      let told = batch_plan-answers (clear r) persona threshold batch s entered full e in
      (s, best, rw idle (if_false _ _ free ∙ rw told refl))

-- A round with a viewer, whose calls end well but for the mark on the story
abbrev pub unmarked : Round → (viewers : ℕ) → (elapsed : Option ℤ) → Error → Round
unmarked r viewers elapsed x = record (clear r) {
  viewers = ok (suc viewers);
  silence = ok elapsed;
  claimed = ok tt;
  marked = err x;
  put_back = ok tt;
}

IsClaimed-story :
    (persona : ℕ) (ss : List Story) (s : Story)
    → (claim_next_pending persona ss).0 ≡ some s
    → IsClaimed persona ss s (claim_next_pending persona ss).1
IsClaimed-story persona ss s e = elim (claim_next_pending-IsClaimed persona ss) [
  | inl (no_story, passed) ↦ absurd (no_story_claimed no_story)
  | inr (t, got, c) ↦
      let same : t ≡ s = cc in
      subst (λ x. IsClaimed persona ss x (claim_next_pending persona ss).1) same c
]
  where
    no_story_claimed : claim_next_pending persona ss ≡ (none, ss) → ⊥
    no_story_claimed h =
        let first : (claim_next_pending persona ss).0 ≡ none = ap (λ p. p.0) h in cc

module _ (r : Round) (viewers : ℕ) (elapsed : Option ℤ) (x : Error) (room persona : ℕ)
    (threshold : ℤ) (w : Floor) (s : Story) where
  -- A quiet room with a viewer, no candidate that reads and a pending story of the persona, where
  -- every call ends well but the mark on the story: the round raises, the request to read the story
  -- is out, and the stories are as before, so that the next claim gets the same story again. No two
  -- stories have one identifier.
  pub advance_told_again :
      is_busy w.slot ≡ false
      → w.is_locked ≡ false
      → (take_all w.buffer).0 ≡ []
      → is_idle threshold elapsed ≡ true
      → IsUnique w.stories
      → (claim_next_pending persona w.stories).0 ≡ some s
      → let (end, v) = advance (unmarked r viewers elapsed x) room persona threshold w in
        (end ≡ err x)
        × (v.asks ≡ ask_of room persona (story_plan s).progress ∷ w.asks)
        × (v.stories ≡ w.stories)
        × ((claim_next_pending persona v.stories).0 ≡ some s)
  unfolding advance attempt plan uninvited carry_out
  advance_told_again idle free none_read quiet unique claim =
      let ss = (claim_next_pending persona w.stories).1 in
      let pair : claim_next_pending persona w.stories ≡ (some s, ss) =
        ap {B = Option Story × List Story} (λ o. (o, ss)) claim in
      let restored =
        release_story-claimed persona w.stories unique s ss
          (IsClaimed-story persona w.stories s claim) in
      let v : Floor = record w {
        is_locked = false;
        buffer = (take_all w.buffer).1;
        stories = release_story s.id ss;
        asks = ask_of room persona (story_plan s).progress ∷ w.asks;
      } in
      let end : with_lock (unmarked r viewers elapsed x) room persona threshold w ≡ (err x, v) =
        if_false _ _ free ∙ rw (none_read, quiet, pair) refl in
      rw (idle, end) (refl, refl, restored, rw restored claim)
