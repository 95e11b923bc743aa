-- ===== src/Community/Reading.antt =====
-- Who reads which story: the queue of `claim_next_pending`, and stories that are over.
use project_aria.Common.{
  ℕ, ◌≡◌, ◌⊎◌, refl, ap, sym, ◌∙◌, true, false, Option, none, some, List, [], ◌∷◌, ◌++◌, ◌==◌,
  arith, All, Bool-cases, Option-cases, inl, inr, ==_iff,
}
use project_aria.Community.Story.{
  Story, StoryStatus, pending, reading, done, find_story, is_waiting, claim_next_pending,
  set_status, finish, put_back, mark_done, release_story,
}

abbrev pub IsPassed : ℕ → Story → Type 0
IsPassed persona s = is_waiting persona s ≡ false

-- A claim takes the first waiting story, as reading, and leaves the rest of the queue.
pub record IsClaimed (persona : ℕ) (ss : List Story) (s : Story) (ss' : List Story) : Type 0 where
  pub earlier : List Story
  pub story : Story
  pub later : List Story
  pub queue : ss ≡ earlier ++ story ∷ later
  pub passed : All (IsPassed persona) earlier
  pub waiting : is_waiting persona story ≡ true
  pub claimed : s ≡ record story { status = reading }
  pub left : ss' ≡ earlier ++ s ∷ later

-- `claim_next_pending` returns the oldest pending story of the persona, sets that one to reading
-- and leaves every other row and their order; and it returns none, and changes nothing, only if no
-- story of the persona is pending.
pub claim_next_pending-IsClaimed :
    (persona : ℕ) (ss : List Story)
    → ((claim_next_pending persona ss ≡ (none, ss)) × All (IsPassed persona) ss)
      ⊎ ((s : Story) × ((claim_next_pending persona ss).0 ≡ some s)
          × IsClaimed persona ss s (claim_next_pending persona ss).1)
unfolding claim_next_pending
claim_next_pending-IsClaimed persona [] = inl (refl, tt)
claim_next_pending-IsClaimed persona (s ∷ ss) = elim (Bool-cases (is_waiting persona s)) [
  | inl mine ↦ rw mine (
      inr (
        record s { status = reading },
        refl,
        record {
          earlier = [];
          story = s;
          later = ss;
          queue = refl;
          passed = tt;
          waiting = mine;
          claimed = refl;
          left = refl;
        },
      ))
  | inr other ↦ rw other (elim (claim_next_pending-IsClaimed persona ss) [
    | inl (none_left, passed) ↦ inl (rw none_left refl, (refl, passed))
    | inr (t, got, c) ↦ inr (
      t,
      got,
      record {
        earlier = s ∷ c.earlier;
        story = c.story;
        later = c.later;
        queue = ap (λ q. s ∷ q) c.queue;
        passed = (other, c.passed);
        waiting = c.waiting;
        claimed = c.claimed;
        left = ap (λ q. s ∷ q) c.left;
      },
    )
  ])
]

-- One call of the feed
pub data FeedCall : Type 0 where
  claim_call : ℕ → FeedCall
  done_call release_call : ℕ → FeedCall

abbrev pub feed : FeedCall → List Story → List Story
feed (claim_call persona) ss = (claim_next_pending persona ss).1
feed (done_call i) ss = mark_done i ss
feed (release_call i) ss = release_story i ss

find_story-claim :
    (persona i : ℕ) (ss : List Story) (s : Story)
    → find_story i ss ≡ some s
    → s.status ≡ done
    → find_story i (claim_next_pending persona ss).1 ≡ some s
unfolding claim_next_pending
find_story-claim persona i [] s h over = cc
find_story-claim persona i (t ∷ ss) s h over = elim (Bool-cases (is_waiting persona t)) [
  | inl mine ↦ ground (arith, over)
  | inr other ↦ rw other (elim (Bool-cases (t.id == i)) [
    | inl hit ↦ rw hit (rw hit at h)
    | inr miss ↦ rw miss (find_story-claim persona i ss s (rw miss at h) over)
  ])
]

find_story-set_status :
    (i j : ℕ) (status : StoryStatus) (ss : List Story) (s : Story)
    → find_story i ss ≡ some s
    → j == i ≡ false
    → find_story i (set_status j status ss) ≡ some s
find_story-set_status i j status [] s h other = cc
find_story-set_status i j status (t ∷ ss) s h other =
    ground (arith, find_story-set_status i j status ss s)

abbrev or_story : Story → Option Story → Story
or_story d none = d
or_story d (some s) = s

-- The row that `mark_done` or `release` has read is not the finished one, unless it is done.
is_other :
    (i j : ℕ) (ss : List Story) (s t : Story)
    → find_story i ss ≡ some s
    → find_story j ss ≡ some t
    → j == i ≡ true
    → t.status ≡ s.status
is_other i j ss s t hs ht same =
    let found : find_story j ss ≡ some s = ap (λ k. find_story k ss) ((==_iff j i).0 same) ∙ hs in
    ap (λ o. (or_story s o).status) (sym ht ∙ found)

module _ (i j : ℕ) (ss : List Story) (s t : Story) (hs : find_story i ss ≡ some s)
    (ht : find_story j ss ≡ some t) (over : s.status ≡ done) where
  set_keeps :
      (old new : StoryStatus)
      → t.status ≡ old
      → (old ≡ done → ⊥)
      → find_story i (set_status j new ss) ≡ some s
  set_keeps old new is open_ = elim (Bool-cases (j == i)) [
    | inl same ↦ elim (open_ (sym is ∙ is_other i j ss s t hs ht same ∙ over)) [ ]
    | inr other ↦ find_story-set_status i j new ss s hs other
  ]

  finish_keeps : (old : StoryStatus) → t.status ≡ old → find_story i (finish old j ss) ≡ some s
  finish_keeps done is = hs
  finish_keeps pending is = set_keeps pending done is (λ e. cc e)
  finish_keeps reading is = set_keeps reading done is (λ e. cc e)

  put_back_keeps : (old : StoryStatus) → t.status ≡ old → find_story i (put_back old j ss) ≡ some s
  put_back_keeps done is = hs
  put_back_keeps pending is = hs
  put_back_keeps reading is = set_keeps reading pending is (λ e. cc e)

-- A story that has been read to its end stays as it is, whatever the feed is asked: it is not
-- claimed again, and a late release does not put it back.
pub done_stays :
    (call : FeedCall) (ss : List Story) (i : ℕ) (s : Story)
    → find_story i ss ≡ some s
    → s.status ≡ done
    → find_story i (feed call ss) ≡ some s
unfolding mark_done release_story
done_stays (claim_call persona) ss i s h over = find_story-claim persona i ss s h over
done_stays (done_call j) ss i s h over = elim (Option-cases (find_story j ss)) [
  | inl missing ↦ rw missing h
  | inr (t, there) ↦ rw there (finish_keeps i j ss s t h there over t.status refl)
]
done_stays (release_call j) ss i s h over = elim (Option-cases (find_story j ss)) [
  | inl missing ↦ rw missing h
  | inr (t, there) ↦ rw there (put_back_keeps i j ss s t h there over t.status refl)
]
