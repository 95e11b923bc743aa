-- ===== src/Chat/Progress/Stories.antt =====
-- A claimed story given back, or marked as read.
use project_aria.Common.{
  ℕ, ◌≡◌, refl, sym, ap, subst, ◌∙◌, true, false, some, List, [], ◌∷◌, ◌++◌, ◌==◌, arith, All,
  eq_refl,
}
use project_aria.Community.Story.{
  Story, StoryStatus, pending, reading, done, find_story, set_status, mark_done, release_story,
  is_waiting, is_pending,
}
use project_aria.Community.Reading.{IsClaimed}

-- No two rows have one identifier.
abbrev pub IsUnique : List Story → Type 0
IsUnique [] = Unit
IsUnique (s ∷ ss) = All (λ t. t.id == s.id ≡ false) ss × IsUnique ss

set_status-other :
    (i : ℕ) (status : StoryStatus) (ss : List Story)
    → All (λ t. t.id == i ≡ false) ss
    → set_status i status ss ≡ ss
set_status-other i status [] h = refl
set_status-other i status (s ∷ ss) h = rw (h.0, set_status-other i status ss h.1)

module _ (s : Story) (was : StoryStatus) where
  abbrev row : Story
  row = record s { status = was }

  id-ne-earlier :
      (e : Story) (es later : List Story)
      → All (λ t. t.id == e.id ≡ false) (es ++ s ∷ later)
      → e.id == s.id ≡ false
  id-ne-earlier e [] later h = ground (arith, h.0)
  id-ne-earlier e (d ∷ es) later h = id-ne-earlier e es later h.1

  find_story-row :
      (earlier later : List Story)
      → IsUnique (earlier ++ s ∷ later)
      → find_story s.id (earlier ++ row ∷ later) ≡ some row
  find_story-row [] later u = rw (eq_refl s.id)
  find_story-row (e ∷ es) later u = rw (id-ne-earlier e es later u.0, find_story-row es later u.1)

  set_status-row :
      (status : StoryStatus) (earlier later : List Story)
      → IsUnique (earlier ++ s ∷ later)
      → set_status s.id status (earlier ++ row ∷ later)
        ≡ earlier ++ record s { status = status } ∷ later
  set_status-row status [] later u = rw (eq_refl s.id, set_status-other s.id status later u.0)
  set_status-row status (e ∷ es) later u =
      rw (id-ne-earlier e es later u.0, set_status-row status es later u.1)

is_pending-eq : (status : StoryStatus) → is_pending status ≡ true → status ≡ pending
is_pending-eq pending h = refl
is_pending-eq reading h = cc
is_pending-eq done h = cc

is_waiting-pending : (persona : ℕ) (s : Story) → is_waiting persona s ≡ true → s.status ≡ pending
is_waiting-pending persona s h = is_pending-eq s.status (ground arith)

module _ (persona : ℕ) (ss : List Story) (u : IsUnique ss) (s : Story) (ss' : List Story)
    (c : IsClaimed persona ss s ss') where
  unique : IsUnique (c.earlier ++ c.story ∷ c.later)
  unique = subst IsUnique c.queue u

  restored : release_story c.story.id (c.earlier ++ row c.story reading ∷ c.later) ≡ ss
  unfolding release_story
  restored = rw (find_story-row c.story reading c.earlier c.later unique) (
      set_status-row c.story reading pending c.earlier c.later unique
      ∙ (ap (λ st. c.earlier ++ record c.story { status = st } ∷ c.later)
            (sym (is_waiting-pending persona c.story c.waiting))
          ∙ sym c.queue))

  -- Giving a claimed story back restores the rows.
  pub release_story-claimed : release_story s.id ss' ≡ ss
  release_story-claimed = rw (c.left, c.claimed) restored

  finished :
      mark_done c.story.id (c.earlier ++ row c.story reading ∷ c.later)
      ≡ c.earlier ++ record c.story { status = done } ∷ c.later
  unfolding mark_done
  finished =
      rw (find_story-row c.story reading c.earlier c.later unique)
        (set_status-row c.story reading done c.earlier c.later unique)

  -- Marking it as read sets that row alone.
  pub mark_done-claimed :
      mark_done s.id ss' ≡ c.earlier ++ record c.story { status = done } ∷ c.later
  mark_done-claimed = rw (c.left, c.claimed) finished
