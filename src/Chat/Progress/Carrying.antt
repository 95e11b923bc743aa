-- ===== src/Chat/Progress/Carrying.antt =====
-- The `try` of `advance`: the request and the stories.
use project_aria.Common.{
  ℕ, ◌≡◌, ◌≢◌, ◌⊎◌, sym, ap, ◌∙◌, subst, true, Option, none, some, List, ◌∷◌, ◌++◌, inl, inr, All,
}
use project_aria.Common.Error.{Result, ok, err}
use project_aria.Community.Story.{Story, reading, done, is_waiting}
use project_aria.Community.Reading.{IsClaimed, IsPassed}
use project_aria.Chat.Coordinator.{chat}
use project_aria.Chat.Ask.{Ask, Progress}
use project_aria.Chat.Progress.{Floor, Round, Plan, story_plan, ask_of, carry_out, planned, carried}
use project_aria.Chat.Progress.Stories.{IsUnique, release_story-claimed, mark_done-claimed}
use project_aria.Chat.Progress.Advancing.{IsSame, Planned, failed, nothing, unread, reads}

-- The oldest waiting story was asked for and then marked as read, and no other row changed.
pub record IsTold (room persona : ℕ) (w v : Floor) : Type 0 where
  pub earlier : List Story
  pub story : Story
  pub later : List Story
  pub queue : w.stories ≡ earlier ++ story ∷ later
  pub passed : All (IsPassed persona) earlier
  pub waiting : is_waiting persona story ≡ true
  pub left : v.stories ≡ earlier ++ record story { status = done } ∷ later
  pub asked :
      v.asks
      ≡ ask_of room persona (story_plan (record story { status = reading })).progress ∷ w.asks

abbrev pub Stories : (room persona : ℕ) (w v : Floor) → Type 0
Stories room persona w v = (v.stories ≡ w.stories) ⊎ IsTold room persona w v

-- What the `try` of `advance` may have done
pub record IsCarried (viewers : Result ℕ) (room persona : ℕ) (w : Floor)
    (out : Result (Option Progress) × Floor) : Type 0 where
  pub is_locked : out.1.is_locked ≡ w.is_locked
  pub touches : out.1.touches ≡ w.touches
  pub asks :
      (out.1.asks ≡ w.asks)
      ⊎ ((p : Progress) × (out.1.asks ≡ ask_of room persona p ∷ w.asks)
          × (viewers ≡ ok 0 → p.source ≡ chat))
  pub silent : out.0 ≡ ok none → (out.1.asks ≡ w.asks) × (out.1.stories ≡ w.stories)
  pub spoke : (p : Progress) → out.0 ≡ ok (some p) → out.1.asks ≡ ask_of room persona p ∷ w.asks
  pub stories : Stories room persona w out.1

spoken :
    (room persona : ℕ) (p q : Progress) (ys zs : List Ask)
    → ◌≡◌ {A = Result (Option Progress)} (ok (some p)) (ok (some q))
    → ys ≡ zs
    → ask_of room persona p ∷ ys ≡ ask_of room persona q ∷ zs
spoken room persona p q ys zs h e =
    let same : p ≡ q = cc in
    subst (λ x. ask_of room persona p ∷ ys ≡ ask_of room persona x ∷ zs) same
      (ap (λ l. ask_of room persona p ∷ l) e)

module _ (r : Round) (back : r.put_back ≡ ok tt) (room persona : ℕ) (w : Floor) where
  pub Carried : Result (Option Progress) × Floor → Type 0
  Carried = IsCarried r.viewers room persona w

  unread-IsCarried :
      (requested : Result (Unit {0})) (p : Plan) (v : Floor)
      → p.story ≡ none
      → (r.viewers ≡ ok 0 → p.progress.source ≡ chat)
      → IsSame w v
      → v.stories ≡ w.stories
      → Carried (carried r p (carry_out (record r { requested = requested }) room persona p v))
  unfolding Carried carry_out
  unread-IsCarried (err x) p v n a s e = rw n (record {
    is_locked = s.is_locked;
    touches = s.touches;
    asks = inl s.asks;
    silent = λ h. cc;
    spoke = λ q h. cc;
    stories = inl e;
  })
  unread-IsCarried (ok _) p v n a s e = rw n (record {
    is_locked = s.is_locked;
    touches = s.touches;
    asks = inr (p.progress, ap (λ l. ask_of room persona p.progress ∷ l) s.asks, a);
    silent = λ h. cc;
    spoke = λ q h. spoken room persona p.progress q v.asks w.asks h s.asks;
    stories = inl e;
  })

  module _ (u : IsUnique w.stories) where
    reads-IsCarried :
        (requested marked : Result (Unit {0})) (s : Story) (v : Floor)
        → IsSame w v
        → IsClaimed persona w.stories s v.stories
        → r.viewers ≢ ok 0
        → Carried (
            carried r (story_plan s) (
              carry_out
                (record r { requested = requested; marked = marked })
                room
                persona
                (story_plan s)
                v))
    unfolding Carried carry_out
    reads-IsCarried (err x) marked s v same c heard = rw back (record {
      is_locked = same.is_locked;
      touches = same.touches;
      asks = inl same.asks;
      silent = λ h. cc;
      spoke = λ q h. cc;
      stories = inl (release_story-claimed persona w.stories u s v.stories c);
    })
    reads-IsCarried (ok _) (err x) s v same c heard = rw back (record {
      is_locked = same.is_locked;
      touches = same.touches;
      asks = inr (
        (story_plan s).progress,
        ap (λ l. ask_of room persona (story_plan s).progress ∷ l) same.asks,
        λ h. absurd (heard h),
      );
      silent = λ h. cc;
      spoke = λ q h. cc;
      stories = inl (release_story-claimed persona w.stories u s v.stories c);
    })
    reads-IsCarried (ok _) (ok _) s v same c heard = record {
      is_locked = same.is_locked;
      touches = same.touches;
      asks = inr (
        (story_plan s).progress,
        ap (λ l. ask_of room persona (story_plan s).progress ∷ l) same.asks,
        λ h. absurd (heard h),
      );
      silent = λ h. cc;
      spoke = λ q h. spoken room persona (story_plan s).progress q v.asks w.asks h same.asks;
      stories = inr (record {
        earlier = c.earlier;
        story = c.story;
        later = c.later;
        queue = c.queue;
        passed = c.passed;
        waiting = c.waiting;
        left = mark_done-claimed persona w.stories u s v.stories c;
        asked =
            subst
              (λ t.
                ask_of room persona (story_plan s).progress ∷ v.asks
                ≡ ask_of room persona (story_plan t).progress ∷ w.asks)
              c.claimed (ap (λ l. ask_of room persona (story_plan s).progress ∷ l) same.asks);
      });
    }

    still-IsCarried :
        (end : Result (Option Progress)) (v : Floor)
        → ((p : Progress) → end ≡ ok (some p) → ⊥)
        → IsSame w v
        → v.stories ≡ w.stories
        → Carried (end, v)
    unfolding Carried
    still-IsCarried end v mute s e = record {
      is_locked = s.is_locked;
      touches = s.touches;
      asks = inl s.asks;
      silent = λ h. (s.asks, e);
      spoke = λ p h. absurd (mute p h);
      stories = inl e;
    }

    pub planned-IsCarried :
        (end : Result (Option Plan)) (v : Floor)
        → IsSame w v
        → Planned r.viewers persona w (end, v)
        → IsCarried r.viewers room persona w (planned r room persona (end, v))
    unfolding Carried
    planned-IsCarried (err x) v s (failed y e same) = still-IsCarried (err x) v (λ p h. cc) s same
    planned-IsCarried (err x) v s (nothing e same) = cc
    planned-IsCarried (err x) v s (unread p e n a same) = cc
    planned-IsCarried (err x) v s (reads t e c heard) = cc
    planned-IsCarried (ok none) v s (failed y e same) = cc
    planned-IsCarried (ok none) v s (nothing e same) =
        still-IsCarried (ok none) v (λ p h. cc) s same
    planned-IsCarried (ok none) v s (unread p e n a same) = cc
    planned-IsCarried (ok none) v s (reads t e c heard) = cc
    planned-IsCarried (ok (some p)) v s (failed y e same) = cc
    planned-IsCarried (ok (some p)) v s (nothing e same) = cc
    planned-IsCarried (ok (some p)) v s (unread q e n a same) =
        let same_plan : p ≡ q = cc in
        unread-IsCarried r.requested p v (ap (λ (x : Plan). x.story) same_plan ∙ n)
          (λ h. ap (λ (x : Plan). x.progress.source) same_plan ∙ a h) s same
    planned-IsCarried (ok (some p)) v s (reads t e c heard) =
        let is_story : p ≡ story_plan t = cc in
        subst (λ x. Carried (carried r x (carry_out r room persona x v))) (sym is_story)
          (reads-IsCarried r.requested r.marked t v s c heard)
