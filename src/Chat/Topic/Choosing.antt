-- ===== src/Chat/Topic/Choosing.antt =====
-- What `select_best` chooses.
use project_aria.Common.Int.{◌≤ℤ◌}
use project_aria.Common.{
  ◌<◌, ◌⊎◌, ltb, ℕ, ◌≡◌, refl, true, false, none, some, List, [], ◌∷◌, ◌++◌, arith, All, All-Memᴰ,
  Option, Memᴰ, Memᴰ-append, Memᴰ-append_left, Memᴰ-append_right, Bool-cases, ap, subst, sym, inl,
  inr,
}
use project_aria.Chat.Topic.{
  Candidate, Topic, size, max_size, scores, scored, best_of, select_best, Scored, score, beats,
  best_from,
}

beats_trans : (s t u : Scored) → beats s t ≡ false → beats t u ≡ false → beats s u ≡ false
beats_trans s t u h k = ground arith

beats_asym : (s t : Scored) → beats s t ≡ true → beats t s ≡ false
beats_asym s t h = ground arith

-- The key of the first of two is at least that of the second.
abbrev pub IsAbove : Scored → Scored → Type 0
IsAbove s t = beats t s ≡ false

best_from_ahead :
    (s t : Scored) (ts : List Scored) → beats t s ≡ true → best_from s (t ∷ ts) ≡ best_from t ts
best_from_ahead s t ts h = rw h

best_from_behind :
    (s t : Scored) (ts : List Scored) → beats t s ≡ false → best_from s (t ∷ ts) ≡ best_from s ts
best_from_behind s t ts h = rw h

best_from-IsAbove :
    (s : Scored) (ss : List Scored) → IsAbove (best_from s ss) s × All (IsAbove (best_from s ss)) ss
best_from-IsAbove s [] = (ground arith, tt)
best_from-IsAbove s (t ∷ ts) = elim (Bool-cases (beats t s)) [
  | inl ahead ↦
      let (first, rest) = best_from-IsAbove t ts in
      subst (λ x. IsAbove x s × All (IsAbove x) (t ∷ ts)) (sym (best_from_ahead s t ts ahead))
        (beats_trans s t (best_from t ts) (beats_asym t s ahead) first, (first, rest))
  | inr behind ↦
      let (first, rest) = best_from-IsAbove s ts in
      subst (λ x. IsAbove x s × All (IsAbove x) (t ∷ ts)) (sym (best_from_behind s t ts behind))
        (first, (beats_trans t s (best_from s ts) behind first, rest))
]

best_from-Memᴰ : (s : Scored) (ss : List Scored) → Memᴰ (best_from s ss) (s ∷ ss)
best_from-Memᴰ s [] = Memᴰ.head refl
best_from-Memᴰ s (t ∷ ts) = elim (Bool-cases (beats t s)) [
  | inl ahead ↦ rw ahead (Memᴰ.tail (best_from-Memᴰ t ts))
  | inr behind ↦ rw behind (skip (best_from-Memᴰ s ts))
]
  where
    skip : {x : Scored} → Memᴰ x (s ∷ ts) → Memᴰ x (s ∷ t ∷ ts)
    skip (Memᴰ.head e) = Memᴰ.head e
    skip (Memᴰ.tail m) = Memᴰ.tail (Memᴰ.tail m)

-- The first scores higher, or as high and came no later.
abbrev pub Outranks : Scored → Scored → Type 0
Outranks s t =
    (t.points < s.points)
    ⊎ ((t.points ≡ s.points) × (s.candidate.created_at ≤ℤ t.candidate.created_at))

IsAbove-Outranks : (s t : Scored) → IsAbove s t → Outranks s t
IsAbove-Outranks s t h = elim (Bool-cases (ltb t.points s.points)) [
  | inl more ↦ inl (ground arith)
  | inr less ↦ inr (ground arith)
]

-- A candidate of one of the topics, with its score, that no other candidate's key is above
pub record IsBest (ts : List Topic) (s : Scored) : Type 0 where
  pub chosen :
      (t : Topic) × (c : Candidate) × Memᴰ t ts
      × Memᴰ c t.candidates
      × (s ≡ score (size t) (max_size ts) c)
  pub best :
      (t : Topic) (c : Candidate)
      → Memᴰ t ts
      → Memᴰ c t.candidates
      → Outranks s (score (size t) (max_size ts) c)

abbrev pub IsChosen : List Topic → Option Scored → Type 0
IsChosen ts none = All (λ t. t.candidates ≡ []) ts
IsChosen ts (some s) = IsBest ts s

Memᴰ-scores :
    (n m : ℕ) (s : Scored) (cs : List Candidate)
    → Memᴰ s (scores n m cs)
    → (c : Candidate) × Memᴰ c cs × (s ≡ score n m c)
Memᴰ-scores n m s [] i = elim i [ ]
Memᴰ-scores n m s (c ∷ cs) (Memᴰ.head e) = (c, Memᴰ.head refl, e)
Memᴰ-scores n m s (c ∷ cs) (Memᴰ.tail i) =
    let (d, j, e) = Memᴰ-scores n m s cs i in (d, Memᴰ.tail j, e)

scores-Memᴰ :
    (n m : ℕ) (c : Candidate) (cs : List Candidate) → Memᴰ c cs → Memᴰ (score n m c) (scores n m cs)
scores-Memᴰ n m c [] i = elim i [ ]
scores-Memᴰ n m c (d ∷ cs) (Memᴰ.head e) = Memᴰ.head (ap (score n m) e)
scores-Memᴰ n m c (d ∷ cs) (Memᴰ.tail i) = Memᴰ.tail (scores-Memᴰ n m c cs i)

Memᴰ-scored :
    (m : ℕ) (s : Scored) (ts : List Topic)
    → Memᴰ s (scored m ts)
    → (t : Topic) × (c : Candidate) × Memᴰ t ts × Memᴰ c t.candidates × (s ≡ score (size t) m c)
Memᴰ-scored m s [] i = elim i [ ]
Memᴰ-scored m s (t ∷ ts) i = elim (Memᴰ-append s (scores (size t) m t.candidates) (scored m ts) i) [
  | inl here ↦
      let (c, j, e) = Memᴰ-scores (size t) m s t.candidates here in (t, c, Memᴰ.head refl, j, e)
  | inr later ↦ let (u, c, j, k, e) = Memᴰ-scored m s ts later in (u, c, Memᴰ.tail j, k, e)
]

scored-Memᴰ :
    (m : ℕ) (t : Topic) (c : Candidate) (ts : List Topic)
    → Memᴰ t ts
    → Memᴰ c t.candidates
    → Memᴰ (score (size t) m c) (scored m ts)
scored-Memᴰ m t c [] i j = elim i [ ]
scored-Memᴰ m t c (u ∷ ts) (Memᴰ.head e) j =
    Memᴰ-append_left _ (scores (size u) m u.candidates) (scored m ts) (
      subst (λ v. Memᴰ (score (size t) m c) (scores (size v) m v.candidates)) e
        (scores-Memᴰ (size t) m c t.candidates j))
scored-Memᴰ m t c (u ∷ ts) (Memᴰ.tail i) j =
    Memᴰ-append_right _ (scores (size u) m u.candidates) (scored m ts) (scored-Memᴰ m t c ts i j)

scores_split :
    (n m : ℕ) (cs : List Candidate) (ss : List Scored)
    → scores n m cs ++ ss ≡ []
    → (cs ≡ []) × (ss ≡ [])
scores_split n m [] ss h = (refl, h)
scores_split n m (c ∷ cs) ss h = cc

scored-nil : (m : ℕ) (ts : List Topic) → scored m ts ≡ [] → All (λ t. t.candidates ≡ []) ts
scored-nil m [] h = tt
scored-nil m (t ∷ ts) h =
    let (none_here, none_later) = scores_split (size t) m t.candidates (scored m ts) h in
    (none_here, scored-nil m ts none_later)

best_of-IsChosen :
    (ts : List Topic) (ss : List Scored) → scored (max_size ts) ts ≡ ss → IsChosen ts (best_of ss)
best_of-IsChosen ts [] e = scored-nil (max_size ts) ts e
best_of-IsChosen ts (s ∷ ss) e = record {
  chosen =
      Memᴰ-scored (max_size ts) (best_from s ss) ts
        (subst (Memᴰ (best_from s ss)) (sym e) (best_from-Memᴰ s ss));
  best = λ t c i j. IsAbove-Outranks (best_from s ss) (score (size t) (max_size ts) c) (
      All-Memᴰ (IsAbove (best_from s ss)) (s ∷ ss) (score (size t) (max_size ts) c)
        (best_from-IsAbove s ss)
        (subst (Memᴰ (score (size t) (max_size ts) c)) e (scored-Memᴰ (max_size ts) t c ts i j)));
}

-- `select_best` returns a candidate of one of the topics, with the score that it has in its topic;
-- no candidate of any topic scores higher, and none with the same score came earlier. It returns
-- none only if no topic has a candidate.
pub select_best-IsChosen : (ts : List Topic) → IsChosen ts (select_best ts)
unfolding select_best
select_best-IsChosen ts = best_of-IsChosen ts (scored (max_size ts) ts) refl
