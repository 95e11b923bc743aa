-- ===== src/Chat/Progress/Rounds.antt =====
-- A round in one room: `advance` on every way that its calls end.
use project_aria.Common.{
  ℕ, ◌≡◌, ◌⊎◌, refl, sym, ap, ◌∙◌, subst, true, false, Option, none, some, ◌∷◌, inl, inr,
  Bool-cases, if_true, if_false,
}
use project_aria.Common.Int.{ℤ}
use project_aria.Common.Error.{Result, ok, err}
use project_aria.Chat.Coordinator.{chat, is_busy}
use project_aria.Chat.Ask.{Progress}
use project_aria.Chat.Progress.{
  Floor, Round, ask_of, plan, planned, attempt, touching, with_lock, advance,
}
use project_aria.Chat.Progress.Stories.{IsUnique}
use project_aria.Chat.Progress.Advancing.{plan-Planned}
use project_aria.Chat.Progress.Carrying.{Stories, IsCarried, planned-IsCarried}

-- What `advance` may have done
pub record IsAdvanced (viewers : Result ℕ) (room persona : ℕ) (w : Floor)
    (out : Result (Option Progress) × Floor) : Type 0 where
  pub is_locked : out.1.is_locked ≡ w.is_locked
  pub asks :
      (out.1.asks ≡ w.asks)
      ⊎ ((p : Progress) × (out.1.asks ≡ ask_of room persona p ∷ w.asks)
          × (viewers ≡ ok 0 → p.source ≡ chat))
  pub silent :
      out.0 ≡ ok none
      → (out.1.asks ≡ w.asks) × (out.1.stories ≡ w.stories) × (out.1.touches ≡ w.touches)
  pub spoke :
      (p : Progress)
      → out.0 ≡ ok (some p)
      → (out.1.asks ≡ ask_of room persona p ∷ w.asks) × (out.1.touches ≡ room ∷ w.touches)
  pub stories : Stories room persona w out.1

module _ (room persona : ℕ) (w : Floor) where
  Advanced : Result ℕ → Result (Option Progress) × Floor → Type 0
  Advanced viewers = IsAdvanced viewers room persona w

  unmoved-IsAdvanced :
      (viewers : Result ℕ) (end : Result (Option Progress))
      → ((p : Progress) → end ≡ ok (some p) → ⊥)
      → Advanced viewers (end, w)
  unfolding Advanced
  unmoved-IsAdvanced viewers end mute = record {
    is_locked = refl;
    asks = inl refl;
    silent = λ h. (refl, refl, refl);
    spoke = λ p h. absurd (mute p h);
    stories = inl refl;
  }

  abbrev entered : Floor
  entered = record w { is_locked = true }

  -- The stories and the requests are all that it speaks of.
  Stories-entered :
      (v v' : Floor)
      → v'.stories ≡ v.stories
      → v'.asks ≡ v.asks
      → Stories room persona entered v
      → Stories room persona w v'
  Stories-entered v v' same_stories same_asks (inl e) = inl (same_stories ∙ e)
  Stories-entered v v' same_stories same_asks (inr t) = inr (record {
    earlier = t.earlier;
    story = t.story;
    later = t.later;
    queue = t.queue;
    passed = t.passed;
    waiting = t.waiting;
    left = same_stories ∙ t.left;
    asked = same_asks ∙ t.asked;
  })

  touching-IsAdvanced :
      (viewers : Result ℕ) (touched : Result (Unit {0})) (r : Round)
      (end : Result (Option Progress)) (v : Floor)
      → w.is_locked ≡ false
      → IsCarried viewers room persona entered (end, v)
      → Advanced viewers
          (touching (record r { touched = touched }) room (end, record v { is_locked = false }))
  unfolding Advanced
  touching-IsAdvanced viewers touched r (err x) v free c = record {
    is_locked = sym free;
    asks = c.asks;
    silent = λ h. cc;
    spoke = λ p h. cc;
    stories = Stories-entered v _ refl refl c.stories;
  }
  touching-IsAdvanced viewers touched r (ok none) v free c = record {
    is_locked = sym free;
    asks = c.asks;
    silent = λ h. let (same, left) = c.silent refl in (same, left, c.touches);
    spoke = λ p h. cc;
    stories = inl (c.silent refl).1;
  }
  touching-IsAdvanced viewers (err x) r (ok (some p)) v free c = record {
    is_locked = sym free;
    asks = c.asks;
    silent = λ h. cc;
    spoke = λ q h. cc;
    stories = Stories-entered v _ refl refl c.stories;
  }
  touching-IsAdvanced viewers (ok _) r (ok (some p)) v free c = record {
    is_locked = sym free;
    asks = c.asks;
    silent = λ h. cc;
    spoke = λ q h. (c.spoke q h, ap (λ l. room ∷ l) c.touches);
    stories = Stories-entered v _ refl refl c.stories;
  }

  module _ (u : IsUnique w.stories) (threshold : ℤ) where
    attempt-IsCarried :
        (r : Round)
        → r.put_back ≡ ok tt
        → IsCarried r.viewers room persona entered (attempt r room persona threshold entered)
    unfolding attempt
    attempt-IsCarried r back =
        let (same, planned) = plan-Planned persona threshold r entered in
        planned-IsCarried r back room persona entered u (plan r persona threshold entered).0
          (plan r persona threshold entered).1 same planned

    with_lock-IsAdvanced :
        (r : Round)
        → r.put_back ≡ ok tt
        → r.unlocked ≡ ok tt
        → Advanced r.viewers (with_lock r room persona threshold w)
    unfolding attempt
    with_lock-IsAdvanced r back free = elim (Bool-cases w.is_locked) [
      | inl held ↦
          subst (Advanced r.viewers) (sym (if_true _ _ held))
            (unmoved-IsAdvanced r.viewers (ok none) (λ p h. cc))
      | inr open_ ↦ subst (Advanced r.viewers) (sym (if_false _ _ open_)) (
          rw free (
            touching-IsAdvanced r.viewers r.touched r (attempt r room persona threshold entered).0
              (attempt r room persona threshold entered).1 open_ (attempt-IsCarried r back)))
    ]

    asking-IsAdvanced :
        (asked locked : Result (Unit {0})) (r : Round)
        → r.put_back ≡ ok tt
        → r.unlocked ≡ ok tt
        → Advanced r.viewers
            (advance (record r { asked_slot = asked; locked = locked }) room persona threshold w)
    unfolding advance
    asking-IsAdvanced (err x) locked r back free = unmoved-IsAdvanced r.viewers (err x) (λ p h. cc)
    asking-IsAdvanced (ok _) (err x) r back free = elim (Bool-cases (is_busy w.slot)) [
      | inl busy ↦ rw busy (unmoved-IsAdvanced r.viewers (ok none) (λ p h. cc))
      | inr idle ↦ rw idle (unmoved-IsAdvanced r.viewers (err x) (λ p h. cc))
    ]
    asking-IsAdvanced (ok a) (ok b) r back free = elim (Bool-cases (is_busy w.slot)) [
      | inl busy ↦ rw busy (unmoved-IsAdvanced r.viewers (ok none) (λ p h. cc))
      | inr idle ↦
          rw idle (with_lock-IsAdvanced (record r { asked_slot = ok a; locked = ok b }) back free)
    ]

-- A round in a room, with any calls that fail, if giving a story back and giving the lock back do
-- not and no two stories have one identifier. Afterwards the lock is as it was. At most one request
-- went out: none if the round returns none, which changes no story and touches nothing, and exactly
-- the one for its result if it returns one, which touches the room; with no viewer it can only be
-- an answer to a candidate. The stories are as they were,
-- or the persona's oldest pending story was asked for and is done and no other row has changed: no
-- story stays in reading.
pub advance-IsAdvanced :
    (r : Round) (room persona : ℕ) (threshold : ℤ) (w : Floor)
    → r.put_back ≡ ok tt
    → r.unlocked ≡ ok tt
    → IsUnique w.stories
    → IsAdvanced r.viewers room persona w (advance r room persona threshold w)
unfolding Advanced
advance-IsAdvanced r room persona threshold w back free u =
    asking-IsAdvanced room persona w u threshold r.asked_slot r.locked r back free
