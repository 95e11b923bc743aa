-- ===== src/Chat/Ask.antt =====
-- What asks for a response: the arguments of `GenerationRequestPublisher.request` of
-- chat/application/generation.py, and the selection that chat/application/progress.py hands it.
use project_aria.Common.{ℕ, Option, none, some, List}
use project_aria.Common.Text.{Text}
use project_aria.Chat.Coordinator.{ChatSource}
use project_aria.Chat.Topic.{Scored}

-- Why a candidate was chosen. The points are ten-thousandths.
pub record Selection : Type 0 where
  pub candidates : ℕ
  pub topics : ℕ
  pub selected_score : ℕ
  pub selected_reasons : List Text
  pub selected_message_id : ℕ
  pub selected_author_id : ℕ

pub record Ask : Type 0 where
  pub room_id : ℕ
  pub persona_id : ℕ
  pub source : ChatSource
  pub prompt : Text
  pub selection : Option Selection

-- What was put into words
pub record Progress : Type 0 where
  pub source : ChatSource
  pub prompt : Text
  pub selection : Option Scored
  pub candidate_count : ℕ
  pub topic_count : ℕ

abbrev selection_of : ℕ → ℕ → Option Scored → Option Selection
selection_of candidates topics none = none
selection_of candidates topics (some s) = some (record {
  candidates = candidates;
  topics = topics;
  selected_score = s.points;
  selected_reasons = s.reasons;
  selected_message_id = s.candidate.message_id;
  selected_author_id = s.candidate.author_id;
})

-- `_selection_metadata`
unfoldable pub selection_metadata : Progress → Option Selection
selection_metadata p = selection_of p.candidate_count p.topic_count p.selection
