-- ===== src/Community/Story.antt =====
-- community/domain/model.py, application/service.py and the story repository of
-- adapter/outbound/persistence/repository.py, which story_feed.py hands on to the chat context.
use project_aria.Common.{
  ℕ, Bool, true, false, ◌&&◌, Option, none, some, List, [], ◌∷◌, ◌++◌, ◌==◌, if◌then◌else◌, leb,
  length,
}
use project_aria.Common.Error.{
  Result, ok, err, value_error, not_found, integrity_error, guard, ◌>>=◌, ◌>>◌,
}
use project_aria.Common.Text.{Text}

pub data StoryStatus : Type 0 where
  pending reading done : StoryStatus

pub record Story : Type 0 where
  pub id : ℕ
  pub persona_id : ℕ
  pub author_id : Option ℕ
  pub title : Text
  pub content : Text
  pub is_anonymous : Bool
  pub relationship_stage : Option Text
  pub nickname : Option Text
  pub status : StoryStatus

abbrev fits : ℕ → Option Text → Bool
fits n none = true
fits n (some t) = leb (length t) n

-- The constructor with its validation
unfoldable pub validate_story : Story → Result Story
validate_story s = do
  guard (leb 1 (length s.title) && leb (length s.title) 200) value_error
  guard (leb 1 (length s.content)) value_error
  guard (fits 50 s.relationship_stage) value_error
  guard (fits 50 s.nickname) value_error
  ok s

-- `Story.display_author_id`
unfoldable pub display_author_id : Story → Option ℕ
display_author_id s = if s.is_anonymous then none else s.author_id

-- The rows in the order of their creation, the oldest first
abbrev pub find_story : ℕ → List Story → Option Story
find_story i [] = none
find_story i (s ∷ ss) = if s.id == i then some s else find_story i ss

abbrev insert_story : Option Story → Story → List Story → Result (List Story)
insert_story none s ss = ok (ss ++ s ∷ [])
insert_story (some old) s ss = err integrity_error

-- `SqlModelStoryRepository.add`
unfoldable pub add_story : Story → List Story → Result (List Story)
add_story s ss = insert_story (find_story s.id ss) s ss

-- `StoryService.submit`
unfoldable pub submit : Story → List Story → Result (Story × List Story)
submit s ss = do
  story ← validate_story (record s { status = pending })
  ss' ← add_story story ss
  ok (story, ss')

abbrev found : Option Story → Result Story
found none = err not_found
found (some s) = ok s

-- `StoryService.get`
unfoldable pub get_story : ℕ → List Story → Result Story
get_story i ss = found (find_story i ss)

abbrev pub is_pending : StoryStatus → Bool
is_pending pending = true
is_pending _ = false

-- `WHERE persona_id = persona AND status = 'pending'`
abbrev pub is_waiting : ℕ → Story → Bool
is_waiting persona s = s.persona_id == persona && is_pending s.status

abbrev with_head : Story → Option Story × List Story → Option Story × List Story
with_head s (got, ss) = (got, s ∷ ss)

-- `claim_next_pending`: the oldest row that matches, set to reading
unfoldable pub claim_next_pending : ℕ → List Story → Option Story × List Story
claim_next_pending persona [] = (none, [])
claim_next_pending persona (s ∷ ss) =
    let rest = claim_next_pending persona ss in
    if is_waiting persona s
    then (some (record s { status = reading }), record s { status = reading } ∷ ss)
    else with_head s rest

-- The row of an identifier with another status
abbrev pub set_status : ℕ → StoryStatus → List Story → List Story
set_status i status [] = []
set_status i status (s ∷ ss) =
    (if s.id == i then record s { status = status } else s) ∷ set_status i status ss

abbrev pub finish : StoryStatus → ℕ → List Story → List Story
finish done i ss = ss
finish pending i ss = set_status i done ss
finish reading i ss = set_status i done ss

abbrev pub finished_from : ℕ → List Story → Option Story → List Story
finished_from i ss none = ss
finished_from i ss (some s) = finish s.status i ss

-- `mark_done`
unfoldable pub mark_done : ℕ → List Story → List Story
mark_done i ss = finished_from i ss (find_story i ss)

abbrev pub put_back : StoryStatus → ℕ → List Story → List Story
put_back reading i ss = set_status i pending ss
put_back pending i ss = ss
put_back done i ss = ss

abbrev pub released_from : ℕ → List Story → Option Story → List Story
released_from i ss none = ss
released_from i ss (some s) = put_back s.status i ss

-- `release`
unfoldable pub release_story : ℕ → List Story → List Story
release_story i ss = released_from i ss (find_story i ss)
