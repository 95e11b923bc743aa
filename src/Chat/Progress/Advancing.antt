-- ===== src/Chat/Progress/Advancing.antt =====
-- What a round may do to a room: `_plan`, the request and the stories.
use project_aria.Common.{
  ℕ, zero, suc, ◌≡◌, ◌≢◌, refl, ap, Option, none, some, List, [], ◌∷◌, inl, inr, Bool-cases,
}
use project_aria.Common.Int.{ℤ}
use project_aria.Common.Error.{Error, Result, ok, err}
use project_aria.Community.Story.{Story, claim_next_pending}
use project_aria.Community.Reading.{IsClaimed, claim_next_pending-IsClaimed}
use project_aria.Chat.Coordinator.{chat}
use project_aria.Chat.Candidates.{Entry, take_all}
use project_aria.Chat.Topic.{Candidate, Topic, Scored, select_best}
use project_aria.Chat.Topic.Lexical.{cluster}
use project_aria.Chat.Progress.{
  Floor, Round, Plan, story_plan, talk_plan, uninvited, claim_plan, chosen_plan, batch_plan,
  answer_plan, plan, is_idle,
}

-- What a plan leaves alone
pub record IsSame (w v : Floor) : Type 0 where
  pub slot : v.slot ≡ w.slot
  pub is_locked : v.is_locked ≡ w.is_locked
  pub asks : v.asks ≡ w.asks
  pub touches : v.touches ≡ w.touches

-- What `_plan` comes to
pub data Planned (viewers : Result ℕ) (persona : ℕ) (w : Floor) (out : Result (Option Plan) × Floor)
    : Type 0 where
  failed : (x : Error) → out.0 ≡ err x → out.1.stories ≡ w.stories → Planned viewers persona w out
  nothing : out.0 ≡ ok none → out.1.stories ≡ w.stories → Planned viewers persona w out
  unread :
      (p : Plan)
      → out.0 ≡ ok (some p)
      → p.story ≡ none
      → (viewers ≡ ok 0 → p.progress.source ≡ chat)
      → out.1.stories ≡ w.stories
      → Planned viewers persona w out
  reads :
      (s : Story)
      → out.0 ≡ ok (some (story_plan s))
      → IsClaimed persona w.stories s out.1.stories
      → viewers ≢ ok 0
      → Planned viewers persona w out

IsSame-refl : (w : Floor) → IsSame w w
IsSame-refl w = record { slot = refl; is_locked = refl; asks = refl; touches = refl }

-- The stories may have changed.
IsSame-stories : (w : Floor) (ss : List Story) → IsSame w (record w { stories = ss })
IsSame-stories w ss = record { slot = refl; is_locked = refl; asks = refl; touches = refl }

module _ (persona : ℕ) where
  claim_plan-Planned :
      (n : ℕ) (w : Floor)
      → IsSame w (claim_plan (claim_next_pending persona w.stories) w).1
        × Planned (ok (suc n)) persona w (claim_plan (claim_next_pending persona w.stories) w)
  claim_plan-Planned n w = elim (claim_next_pending-IsClaimed persona w.stories) [
    | inl (waits_none, passed) ↦
        rw waits_none (IsSame-refl w, unread talk_plan refl refl (λ h. cc) refl)
    | inr (s, got, c) ↦
        let ss = (claim_next_pending persona w.stories).1 in
        rw (ap {B = Option Story × List Story} (λ o. (o, ss)) got)
          (IsSame-stories w ss, reads s refl c (λ h. cc))
  ]

module _ (persona : ℕ) (threshold : ℤ) (r : Round) (w : Floor) where
  Fine : Result ℕ → Result (Option Plan) × Floor → Type 0
  Fine viewers out = IsSame w out.1 × Planned viewers persona w out

  uninvited-Planned :
      (viewers : Result ℕ) (silence : Result (Option ℤ)) (claimed : Result (Unit {0}))
      → let round = record r { viewers = viewers; silence = silence; claimed = claimed } in
        Fine viewers (uninvited round persona threshold w)
  unfolding uninvited Fine
  uninvited-Planned (err x) silence claimed = (IsSame-refl w, failed x refl refl)
  uninvited-Planned (ok zero) silence claimed = (IsSame-refl w, nothing refl refl)
  uninvited-Planned (ok (suc n)) (err x) claimed = (IsSame-refl w, failed x refl refl)
  uninvited-Planned (ok (suc n)) (ok elapsed) (err x) =
      elim (Bool-cases (is_idle threshold elapsed)) [
        | inl quiet ↦ rw quiet (IsSame-refl w, failed x refl refl)
        | inr busy ↦ rw busy (IsSame-refl w, nothing refl refl)
      ]
  uninvited-Planned (ok (suc n)) (ok elapsed) (ok _) =
      elim (Bool-cases (is_idle threshold elapsed)) [
        | inl quiet ↦ rw quiet (claim_plan-Planned persona n w)
        | inr busy ↦ rw busy (IsSame-refl w, nothing refl refl)
      ]

module _ (persona : ℕ) (threshold : ℤ) (r : Round) where
  -- The buffer may have changed.
  IsSame-buffer :
      (w : Floor) (es : List Entry) (v : Floor) → IsSame (record w { buffer = es }) v → IsSame w v
  IsSame-buffer w es v s = record {
    slot = s.slot;
    is_locked = s.is_locked;
    asks = s.asks;
    touches = s.touches;
  }

  Planned-buffer :
      (w : Floor) (es : List Entry) (out : Result (Option Plan) × Floor)
      → Planned r.viewers persona (record w { buffer = es }) out
      → Planned r.viewers persona w out
  Planned-buffer w es out (failed x e s) = failed x e s
  Planned-buffer w es out (nothing e s) = nothing e s
  Planned-buffer w es out (unread p e n a s) = unread p e n a s
  Planned-buffer w es out (reads s e c v) = reads s e c v

  chosen_plan-Fine :
      (cs : List Candidate) (ts : List Topic) (best : Option Scored) (w : Floor)
      → Fine persona threshold r w r.viewers (chosen_plan r persona threshold cs ts best w)
  unfolding Fine
  chosen_plan-Fine cs ts none w =
      uninvited-Planned persona threshold r w r.viewers r.silence r.claimed
  chosen_plan-Fine cs ts (some best) w =
      (IsSame-refl w, unread (answer_plan cs ts best) refl refl (λ h. refl) refl)

  batch_plan-Fine :
      (cs : List Candidate) (w : Floor)
      → Fine persona threshold r w r.viewers (batch_plan r persona threshold cs w)
  unfolding Fine
  batch_plan-Fine [] w = uninvited-Planned persona threshold r w r.viewers r.silence r.claimed
  batch_plan-Fine (c ∷ cs) w =
      chosen_plan-Fine (c ∷ cs) (cluster (c ∷ cs)) (select_best (cluster (c ∷ cs))) w

  taken_plan-Fine :
      (taken : Result (Unit {0})) (w : Floor)
      → Fine persona threshold r w r.viewers (plan (record r { taken = taken }) persona threshold w)
  unfolding Fine plan
  taken_plan-Fine (err x) w = (IsSame-refl w, failed x refl refl)
  taken_plan-Fine (ok _) w =
      let (cs, rest) = take_all w.buffer in
      let (same, planned) = batch_plan-Fine cs (record w { buffer = rest }) in
      (IsSame-buffer w rest _ same, Planned-buffer w rest _ planned)

  pub plan-Planned :
      (w : Floor)
      → IsSame w (plan r persona threshold w).1
        × Planned r.viewers persona w (plan r persona threshold w)
  unfolding Fine
  plan-Planned w = taken_plan-Fine r.taken w
