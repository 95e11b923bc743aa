-- ===== src/Chat/Topic.antt =====
-- chat/domain/topic.py: candidates for an answer, topics, and the score by which one candidate is
-- chosen. A score is a fraction; what the code rounds to four places counts ten-thousandths.
pub mod Score
pub mod Choosing
pub mod Lexical
pub mod Partition
mod Tests
use project_aria.Common.{
  ℕ, ◌+◌, ◌*◌, ◌/◌, ◌%◌, Bool, true, false, ◌&&◌, ◌||◌, Option, none, some, List, [], ◌∷◌, ◌++◌,
  ◌==◌, if◌then◌else◌, ltb, leb, max, length,
}
use project_aria.Common.Int.{ℤ, ltb_ℤ}
use project_aria.Common.Text.{Text, codes, strip, contains, ends_with}

-- `Candidate`. Its time of creation is in microseconds.
pub record Candidate : Type 0 where
  pub message_id : ℕ
  pub author_id : ℕ
  pub text : Text
  pub created_at : ℤ

pub record Topic : Type 0 where
  pub label : Text
  pub candidates : List Candidate

-- `Topic.size`
abbrev pub size : Topic → ℕ
size t = length t.candidates

-- A fraction of natural numbers
pub record Ratio : Type 0 where
  pub num : ℕ
  pub den : ℕ

-- `a <= b`
abbrev pub leb_ratio : Ratio → Ratio → Bool
leb_ratio a b = leb (a.num * b.den) (b.num * a.den)

abbrev pub four_fifths : Ratio
four_fifths = record { num = 4; den = 5 }

abbrev pub min_useful_len : ℕ
min_useful_len = 6

abbrev pub ideal_len : ℕ
ideal_len = 40

-- `_length_score` of a text with so many characters
unfoldable pub length_ratio : ℕ → Ratio
length_ratio n =
    if ltb n min_useful_len
    then record { num = 0; den = 1 }
    else if leb n ideal_len
    then record { num = n; den = ideal_len }
    else if leb_ratio (record { num = 1; den = 2 }) (record { num = ideal_len; den = n })
    then record { num = ideal_len; den = n }
    else record { num = 1; den = 2 }

-- `_length_score`
unfoldable pub length_score : Text → Ratio
unfolding strip length_ratio
length_score t = length_ratio (length (strip t))

abbrev pub question_words : List Text
question_words =
    codes "어떻게"
    ∷ codes "어떡"
    ∷ codes "왜"
    ∷ codes "뭐"
    ∷ codes "무엇"
    ∷ codes "언제"
    ∷ codes "누구"
    ∷ codes "어디"
    ∷ codes "할까"
    ∷ codes "될까"
    ∷ codes "괜찮"
    ∷ codes "맞나"
    ∷ codes "맞아"
    ∷ codes "인가요"
    ∷ codes "나요"
    ∷ []

abbrev any_in : List Text → Text → Bool
any_in [] t = false
any_in (w ∷ ws) t = contains w t || any_in ws t

-- `_is_question`
unfoldable pub is_question : Text → Bool
unfolding strip contains ends_with
is_question t =
    ends_with (codes "?") (strip t)
    || ends_with (codes "？") (strip t)
    || any_in question_words (strip t)

abbrev pub when : Bool → Text → List Text
when true t = t ∷ []
when false t = []

-- `topic_size / max_topic_size if max_topic_size else 0.0`
abbrev pub activity_ratio : ℕ → ℕ → Ratio
activity_ratio topic_size max_topic_size =
    if max_topic_size == 0
    then record { num = 0; den = 1 }
    else record { num = topic_size; den = max_topic_size }

-- `round(n / d, 4)` in ten-thousandths: to the nearest, and from the middle to the even one
unfoldable pub round_ratio : (n d : ℕ) → ℕ
round_ratio n d =
    let q = 10000 * n / d in
    let twice = 2 * (10000 * n % d) in
    if ltb twice d then q else if ltb d twice then q + 1 else q + q % 2

-- `0.5 * question + 0.3 * length + 0.2 * activity`, as a numerator over ten times both denominators
abbrev pub total_num : Bool → Ratio → Ratio → ℕ
total_num question l a =
    (if question then 5 else 0) * (l.den * a.den) + 3 * (l.num * a.den) + 2 * (a.num * l.den)

abbrev pub total_den : Ratio → Ratio → ℕ
total_den l a = 10 * (l.den * a.den)

unfoldable pub total : Bool → Ratio → Ratio → ℕ
unfolding round_ratio
total question l a = round_ratio (total_num question l a) (total_den l a)

pub record Scored : Type 0 where
  pub candidate : Candidate
  pub points : ℕ
  pub reasons : List Text

abbrev length_reason : Ratio → List Text
length_reason l =
    if leb_ratio four_fifths l
    then codes "well-sized" ∷ []
    else when (l.num == 0) (codes "too-short")

-- `score`
unfoldable pub score : (topic_size max_topic_size : ℕ) → Candidate → Scored
unfolding is_question length_score total
score topic_size max_topic_size c =
    let question = is_question c.text in
    let l = length_score c.text in
    let a = activity_ratio topic_size max_topic_size in
    record {
      candidate = c;
      points = total question l a;
      reasons =
          when question (codes "question")
          ++ (length_reason l
              ++ when (leb_ratio four_fifths a && ltb 1 topic_size) (codes "hot-topic"));
    }

-- `max(size of each topic)`, 0 of none
abbrev pub max_size : List Topic → ℕ
max_size [] = 0
max_size (t ∷ ts) = max (size t) (max_size ts)

abbrev pub scores : (topic_size max_topic_size : ℕ) → List Candidate → List Scored
scores n m [] = []
scores n m (c ∷ cs) = score n m c ∷ scores n m cs

-- The comprehension over the topics and their candidates
abbrev pub scored : ℕ → List Topic → List Scored
scored m [] = []
scored m (t ∷ ts) = scores (size t) m t.candidates ++ scored m ts

-- Whether the key `(score, -created_at)` of the first is greater
abbrev pub beats : Scored → Scored → Bool
beats s t =
    ltb t.points s.points
    || s.points == t.points && ltb_ℤ s.candidate.created_at t.candidate.created_at

-- `max` with that key, which keeps the first of equals
abbrev pub best_from : Scored → List Scored → Scored
best_from s [] = s
best_from s (t ∷ ts) = best_from (if beats t s then t else s) ts

abbrev pub best_of : List Scored → Option Scored
best_of [] = none
best_of (s ∷ ss) = some (best_from s ss)

-- `select_best`
unfoldable pub select_best : List Topic → Option Scored
select_best ts = best_of (scored (max_size ts) ts)
