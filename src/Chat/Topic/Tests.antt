-- ===== src/Chat/Topic/Tests.antt =====
-- The choice of a candidate at concrete inputs.
use mathlib.Core.List.{Perm}
use project_aria.Common.{
  ◌≡◌, ◌≢◌, ◌≤◌, refl, true, some, List, [], ◌∷◌, All, arith, if◌then◌else◌, map,
}
use project_aria.Common.Int.{pos}
use project_aria.Common.Text.{codes}
use project_aria.Chat.Topic.{Candidate, is_question, select_best, score}
use project_aria.Chat.Topic.Lexical.{tokens, is_similar, cluster}
use project_aria.Chat.Topic.Score.{score_bounds}
use project_aria.Chat.Topic.Choosing.{IsChosen, select_best-IsChosen}
use project_aria.Chat.Topic.Partition.{grouped, cluster-Perm}
use project_aria.Chat.Candidates.{last, max_candidates, take_all, add_each, take_all-add_each}

abbrev asks : Candidate
asks = record {
  message_id = 1;
  author_id = 4;
  text = codes "3년째 짝사랑 중인데 고백해도 될까요?";
  created_at = pos 10;
}

abbrev agrees : Candidate
agrees = record {
  message_id = 2;
  author_id = 5;
  text = codes "짝사랑 고백 타이밍 언제가 좋을까요?";
  created_at = pos 20;
}

abbrev laughs : Candidate
laughs = record { message_id = 3; author_id = 6; text = codes "ㅋㅋ"; created_at = pos 30 }

abbrev batch : List Candidate
batch = asks ∷ laughs ∷ agrees ∷ []

-- The two questions of the module's documentation fall into one topic.
same_topic : is_similar (tokens asks.text) (tokens agrees.text) ≡ true
unfolding is_similar tokens
same_topic = refl

topics : map (λ t. t.candidates) (cluster batch) ≡ (asks ∷ agrees ∷ []) ∷ (laughs ∷ []) ∷ []
unfolding cluster tokens
topics = refl

chosen : select_best (cluster batch) ≡ some (score 2 2 asks)
unfolding cluster tokens select_best score
chosen = refl

points_of_asks : (score 2 2 asks).points ≡ 8575
unfolding score
points_of_asks = refl

score_bounds_example :
    if is_question laughs.text
    then (5000 ≤ (score 1 2 laughs).points) × ((score 1 2 laughs).points ≤ 10000)
    else (score 1 2 laughs).points ≤ 5000
score_bounds_example = score_bounds 1 2 laughs (omega arith)

select_best-IsChosen_example : IsChosen (cluster batch) (select_best (cluster batch))
select_best-IsChosen_example = select_best-IsChosen (cluster batch)

cluster-Perm_example :
    Perm (grouped (cluster batch)) batch × All (λ t. t.candidates ≢ []) (cluster batch)
cluster-Perm_example = cluster-Perm batch

take_all-add_each_example : take_all (add_each batch []) ≡ (last max_candidates batch, [])
take_all-add_each_example = take_all-add_each batch
