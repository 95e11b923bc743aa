-- ===== src/Chat/Topic/Partition.antt =====
-- The candidates of a batch and those of its topics.
use native.Mathlib.Nat.{le_trans}
use mathlib.Core.List.Perm
use mathlib.Core.List.{Perm, Mem, perm_middle, append_assoc, append-nil}
use project_aria.Common.{
  ℕ, ◌≤◌, ◌≡◌, ◌≢◌, refl, sym, subst, ap, some, List, [], ◌∷◌, ◌++◌, All, Memᴰ, Memᴰ-append_left,
  Memᴰ-append_right, arith, Bool-cases, Option-cases, inl, inr,
}
use project_aria.Common.Text.{Text}
use project_aria.Chat.Topic.{
  Candidate, Topic, Scored, size, max_size, score, is_question, select_best,
}
use project_aria.Chat.Topic.Score.{score_bounds}
use project_aria.Chat.Topic.Choosing.{IsBest, IsChosen, select_best-IsChosen}
use project_aria.Chat.Topic.Lexical.{
  Bucket, tokens, is_similar, place, place_all, topics_of, cluster,
}

abbrev pub grouped : List Topic → List Candidate
grouped [] = []
grouped (t ∷ ts) = t.candidates ++ grouped ts

abbrev members : List Bucket → List Candidate
members [] = []
members (b ∷ bs) = b.members ++ members bs

place-Perm :
    (ws : List Text) (c : Candidate) (bs : List Bucket)
    → Perm (members (place ws c bs)) (c ∷ members bs)
place-Perm ws c [] = Perm.rfl
place-Perm ws c (b ∷ bs) = elim (Bool-cases (is_similar ws b.tokens)) [
  | inl same ↦
      rw (same, append_assoc b.members (c ∷ []) (members bs)) (perm_middle b.members (members bs))
  | inr other ↦ rw other (
      Perm.trans (Perm.append_left b.members (place-Perm ws c bs))
        (perm_middle b.members (members bs)))
]

place_all-Perm :
    (cs : List Candidate) (bs : List Bucket) → Perm (members (place_all cs bs)) (members bs ++ cs)
place_all-Perm [] bs = rw (append-nil (members bs)) Perm.rfl
place_all-Perm (c ∷ cs) bs = Perm.trans (place_all-Perm cs (place (tokens c.text) c bs)) (
    Perm.trans (Perm.append_right cs (place-Perm (tokens c.text) c bs))
      (Perm.symm (perm_middle (members bs) cs)))

IsKept : Bucket → Type 0
IsKept b = b.members ≢ []

append-ne-nil : (c : Candidate) (cs : List Candidate) → cs ++ c ∷ [] ≢ []
append-ne-nil c [] = λ e. cc
append-ne-nil c (d ∷ cs) = λ e. cc

place-IsKept :
    (ws : List Text) (c : Candidate) (bs : List Bucket) → All IsKept bs → All IsKept (place ws c bs)
unfolding IsKept
place-IsKept ws c [] h = ((λ e. cc), tt)
place-IsKept ws c (b ∷ bs) h = elim (Bool-cases (is_similar ws b.tokens)) [
  | inl same ↦ rw same (append-ne-nil c b.members, h.1)
  | inr other ↦ rw other (h.0, place-IsKept ws c bs h.1)
]

place_all-IsKept :
    (cs : List Candidate) (bs : List Bucket) → All IsKept bs → All IsKept (place_all cs bs)
place_all-IsKept [] bs h = h
place_all-IsKept (c ∷ cs) bs h =
    place_all-IsKept cs (place (tokens c.text) c bs) (place-IsKept (tokens c.text) c bs h)

grouped-topics_of : (bs : List Bucket) → grouped (topics_of bs) ≡ members bs
grouped-topics_of [] = refl
grouped-topics_of (b ∷ bs) = ap (λ cs. b.members ++ cs) (grouped-topics_of bs)

All-topics_of : (bs : List Bucket) → All IsKept bs → All (λ t. t.candidates ≢ []) (topics_of bs)
unfolding IsKept
All-topics_of [] h = tt
All-topics_of (b ∷ bs) h = (h.0, All-topics_of bs h.1)

-- Clustering puts each candidate into exactly one topic, as often as it came, and makes no topic
-- without a candidate.
pub cluster-Perm :
    (cs : List Candidate)
    → Perm (grouped (cluster cs)) cs × All (λ t. t.candidates ≢ []) (cluster cs)
unfolding cluster
cluster-Perm cs = (
  subst (λ l. Perm l cs) (sym (grouped-topics_of (place_all cs []))) (place_all-Perm cs []),
  All-topics_of (place_all cs []) (place_all-IsKept cs [] tt),
)

grouped-Memᴰ :
    (t : Topic) (c : Candidate) (ts : List Topic)
    → Memᴰ t ts
    → Memᴰ c t.candidates
    → Memᴰ c (grouped ts)
grouped-Memᴰ t c [] i j = elim i [ ]
grouped-Memᴰ t c (u ∷ ts) (Memᴰ.head e) j =
    Memᴰ-append_left c u.candidates (grouped ts) (subst (λ v. Memᴰ c v.candidates) e j)
grouped-Memᴰ t c (u ∷ ts) (Memᴰ.tail i) j =
    Memᴰ-append_right c u.candidates (grouped ts) (grouped-Memᴰ t c ts i j)

size-le-max_size : (t : Topic) (ts : List Topic) → Memᴰ t ts → size t ≤ max_size ts
size-le-max_size t [] i = elim i [ ]
size-le-max_size t (u ∷ ts) (Memᴰ.head e) = let same = ap size e in ground arith
size-le-max_size t (u ∷ ts) (Memᴰ.tail i) = let rest = size-le-max_size t ts i in ground arith

candidate-score : (n m : ℕ) (c : Candidate) → (score n m c).candidate ≡ c
unfolding score
candidate-score n m c = refl

points-le : (n m : ℕ) (c : Candidate) → n ≤ m → (score n m c).points ≤ 10000
points-le n m c h = elim (Bool-cases (is_question c.text)) [
  | inl asks ↦ (rw asks at (score_bounds n m c h)).1
  | inr tells ↦ le_trans (rw tells at (score_bounds n m c h)) (omega arith)
]

no_topics :
    (ts : List Topic) → All (λ t. t.candidates ≡ []) ts → All (λ t. t.candidates ≢ []) ts → ts ≡ []
no_topics [] e n = refl
no_topics (t ∷ ts) e n = absurd (n.0 e.0)

-- What is answered of a batch: one of its candidates, with a score of at most one
pub record IsAnswer (cs : List Candidate) (s : Scored) : Type 0 where
  pub member : Mem s.candidate cs
  pub bounded : s.points ≤ 10000
  pub best : IsBest (cluster cs) s

IsBest-IsAnswer : (cs : List Candidate) (s : Scored) → IsBest (cluster cs) s → IsAnswer cs s
IsBest-IsAnswer cs s b =
    let (t, c, i, j, e) = b.chosen in
    record {
      member =
          (Perm.mem_iff (cluster-Perm cs).0).0
            ∣ subst (λ (x : Scored). Memᴰ x.candidate (grouped (cluster cs))) (sym e)
              (subst (λ d. Memᴰ d (grouped (cluster cs))) (sym (candidate-score _ _ c))
                (grouped-Memᴰ t c (cluster cs) i j)) ∣₁;
      bounded =
          subst (λ (x : Scored). x.points ≤ 10000) (sym e)
            (points-le (size t) (max_size (cluster cs)) c (size-le-max_size t (cluster cs) i));
      best = b;
    }

-- A batch with a candidate in it gets an answer, which is one of its candidates with the best score
-- that any has in its topic.
pub select_best-cluster :
    (cs : List Candidate)
    → cs ≢ []
    → (s : Scored) × (select_best (cluster cs) ≡ some s) × IsAnswer cs s
select_best-cluster cs h = elim (Option-cases (select_best (cluster cs))) [
  | inl nothing ↦
      let (perm, full) = cluster-Perm cs in
      let empty =
        no_topics (cluster cs)
          (subst (IsChosen (cluster cs)) nothing (select_best-IsChosen (cluster cs))) full in
      absurd (h (sym (Perm.nil-eq (subst (λ ts. Perm (grouped ts) cs) empty perm))))
  | inr (s, e) ↦ (
    s,
    e,
    IsBest-IsAnswer cs s (subst (IsChosen (cluster cs)) e (select_best-IsChosen (cluster cs))),
  )
]
