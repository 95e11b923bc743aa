-- ===== src/Chat/Topic/Score.antt =====
-- Bounds of a score.
use project_aria.Common.{
  ℕ, ◌+◌, ◌*◌, ◌/◌, ◌%◌, ◌≤◌, ◌<◌, ◌≡◌, Bool, true, false, arith, if◌then◌else◌, length, Bool-cases,
  ◌⊎◌, ltb, suc, ap, inl, inr,
}
use native.Mathlib.Nat.{mul-le-mul_right, mul-pos, mul_comm}
use project_aria.Common.Text.{strip}
use project_aria.Chat.Topic.{
  Ratio, Candidate, round_ratio, total, length_ratio, length_score, total_num, total_den,
  activity_ratio, score, is_question,
}

quotient_le : (q r d k : ℕ) → 0 < d → d * q + r ≤ k * d → (q < k) ⊎ ((q ≡ k) × (r ≡ 0))
quotient_le q r d k pos h = elim (Bool-cases (ltb q k)) [
  | inl below ↦ inl (ground arith)
  | inr above ↦ inr (exact (ground arith))
]
  where
    equal : k ≤ q → q ≡ k
    equal le = elim (Bool-cases (ltb k q)) [
      | inl more ↦
          let least : suc k ≤ q = ground arith in absurd (omega (arith, mul-le-mul_right d least))
      | inr same ↦ ground arith
    ]

    exact : k ≤ q → (q ≡ k) × (r ≡ 0)
    exact le = let e = equal le in (e, omega (arith, ap (λ (t : ℕ). t * d) e))

module _ (n d k : ℕ) (pos : 0 < d) where
  pub round_ratio-le : 10000 * n ≤ k * d → round_ratio n d ≤ k
  unfolding round_ratio
  round_ratio-le h =
      ground (arith, quotient_le (10000 * n / d) (10000 * n % d) d k pos (grind arith))

  pub le-round_ratio : k * d ≤ 10000 * n → k ≤ round_ratio n d
  unfolding round_ratio
  le-round_ratio h = grind arith

-- A fraction between 0 and 1
pub record IsUnit (a : Ratio) : Type 0 where
  pub den_pos : 0 < a.den
  pub below : a.num ≤ a.den

length_ratio-IsUnit : (n : ℕ) → IsUnit (length_ratio n)
unfolding length_ratio
length_ratio-IsUnit n = ground arith

den_pos : (l a : Ratio) → IsUnit l → IsUnit a → 0 < total_den l a
den_pos l a u v = omega (arith, mul-pos u.den_pos v.den_pos)

parts_le :
    (l a : Ratio)
    → IsUnit l
    → IsUnit a
    → (l.num * a.den ≤ l.den * a.den) × (a.num * l.den ≤ l.den * a.den)
parts_le l a u v = (
  mul-le-mul_right a.den u.below,
  omega (arith, mul-le-mul_right l.den v.below, mul_comm l.den a.den),
)

total_bounds :
    (question : Bool) (l a : Ratio)
    → IsUnit l
    → IsUnit a
    → if question
      then (5000 ≤ total question l a) × (total question l a ≤ 10000)
      else total question l a ≤ 5000
unfolding total
total_bounds true l a u v = (
  le-round_ratio (total_num true l a) (total_den l a) 5000 (den_pos l a u v)
      (omega (arith, den_pos l a u v)),
  round_ratio-le (total_num true l a) (total_den l a) 10000 (den_pos l a u v)
      (omega (arith, parts_le l a u v)),
)
total_bounds false l a u v =
    round_ratio-le (total_num false l a) (total_den l a) 5000 (den_pos l a u v)
      (omega (arith, parts_le l a u v))

activity-IsUnit : (n m : ℕ) → n ≤ m → IsUnit (activity_ratio n m)
activity-IsUnit n m h = ground arith

-- A score is at most one. A question gets at least a half, and what is no question at most a half;
-- the candidate's topic is no larger than the largest.
pub score_bounds :
    (n m : ℕ) (c : Candidate)
    → n ≤ m
    → if is_question c.text
      then (5000 ≤ (score n m c).points) × ((score n m c).points ≤ 10000)
      else (score n m c).points ≤ 5000
unfolding score length_score
score_bounds n m c h =
    total_bounds (is_question c.text) (length_score c.text) (activity_ratio n m)
      (length_ratio-IsUnit (length (strip c.text))) (activity-IsUnit n m h)
