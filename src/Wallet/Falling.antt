-- ===== src/Wallet/Falling.antt =====
-- The order of the ranking.
use project_aria.Common.{
  ℕ, ◌≤◌, ◌≡◌, refl, true, false, List, [], ◌∷◌, All, All-map, arith, Bool-cases, inl, inr,
}
use project_aria.Common.Int.{◌≤ℤ◌}
use project_aria.Wallet.Ranking.{DonorRow, goes_first, insert_row, ordered}
use project_aria.Wallet.Totals.{times}

-- A row gave at least as much, and gave first if both gave the same
abbrev pub IsAhead : DonorRow → DonorRow → Type 0
IsAhead t u = (u.total ≤ℤ t.total) × (t.total ≤ℤ u.total → t.first_at ≤ u.first_at)

abbrev pub IsFalling : List DonorRow → Type 0
IsFalling [] = Unit {0}
IsFalling (t ∷ ts) = All (IsAhead t) ts × IsFalling ts

goes_first-IsAhead : (t u : DonorRow) → goes_first t u ≡ true → IsAhead t u
goes_first-IsAhead t u h = (ground arith, λ k. ground arith)

not_first-IsAhead : (t u : DonorRow) → goes_first t u ≡ false → IsAhead u t
not_first-IsAhead t u h = (ground arith, λ k. ground arith)

IsAhead-trans : (t u v : DonorRow) → IsAhead t u → IsAhead u v → IsAhead t v
IsAhead-trans t u v (a, f) (b, g) = (
  omega arith,
  λ h.
      let low : t.first_at ≤ u.first_at = f (omega arith) in
      let high : u.first_at ≤ v.first_at = g (omega arith) in omega arith,
)

pub All-insert_row {κ} :
    (P : DonorRow → Type κ) (t : DonorRow) (us : List DonorRow)
    → P t
    → All P us
    → All P (insert_row t us)
All-insert_row P t [] p all = (p, tt)
All-insert_row P t (u ∷ us) p (q, all) = elim (Bool-cases (goes_first t u)) [
  | inl first ↦ rw first (p, (q, all))
  | inr later ↦ rw later (q, All-insert_row P t us p all)
]

pub All-ordered {κ} : (P : DonorRow → Type κ) (ts : List DonorRow) → All P ts → All P (ordered ts)
All-ordered P [] all = tt
All-ordered P (t ∷ ts) (p, all) = All-insert_row P t (ordered ts) p (All-ordered P ts all)

times-insert_row :
    (v : ℕ) (t : DonorRow) (us : List DonorRow) → times v (insert_row t us) ≡ times v (t ∷ us)
times-insert_row v t [] = refl
times-insert_row v t (u ∷ us) = elim (Bool-cases (goes_first t u)) [
  | inl first ↦ rw first refl
  | inr later ↦ rw later (omega (arith, times-insert_row v t us))
]

pub times-ordered : (v : ℕ) (ts : List DonorRow) → times v (ordered ts) ≡ times v ts
times-ordered v [] = refl
times-ordered v (t ∷ ts) = omega (arith, times-ordered v ts, times-insert_row v t (ordered ts))

insert_row-IsFalling :
    (t : DonorRow) (us : List DonorRow) → IsFalling us → IsFalling (insert_row t us)
insert_row-IsFalling t [] falling = (tt, tt)
insert_row-IsFalling t (u ∷ us) (ahead, falling) = elim (Bool-cases (goes_first t u)) [
  | inl first ↦ rw first (
    (
      goes_first-IsAhead t u first,
      All-map (IsAhead u) (IsAhead t) (λ v h. IsAhead-trans t u v (goes_first-IsAhead t u first) h)
          us ahead,
    ),
    (ahead, falling),
  )
  | inr later ↦ rw later (
    All-insert_row (IsAhead u) t us (not_first-IsAhead t u later) ahead,
    insert_row-IsFalling t us falling,
  )
]

pub ordered-IsFalling : (ts : List DonorRow) → IsFalling (ordered ts)
ordered-IsFalling [] = tt
ordered-IsFalling (t ∷ ts) = insert_row-IsFalling t (ordered ts) (ordered-IsFalling ts)
