-- ===== src/Wallet/Totals.antt =====
-- The groups of the ranking against sums over the donations.
use project_aria.Common.{
  ℕ, suc, ◌+◌, ◌≤◌, ◌<◌, ◌≡◌, refl, sym, ap, ◌∙◌, Bool, true, false, Option, none, some, List, [],
  ◌∷◌, ◌==◌, if◌then◌else◌, length, All, arith, Bool-cases, inl, inr, if_true, if_false, eq_refl,
}
use project_aria.Common.Int.{ℤ, pos, ◌+ℤ◌, int_laws}
use project_aria.Wallet.Model.{Donation}
use project_aria.Wallet.Ranking.{DonorRow, donor_for, add_row}

abbrev pub is_by : ℕ → Option ℕ → Bool
is_by u none = false
is_by u (some v) = v == u

-- What a user gave to a persona
abbrev pub sum_of : (persona donor : ℕ) → List Donation → ℤ
sum_of persona u [] = pos 0
sum_of persona u (d ∷ ds) =
    let rest = sum_of persona u ds in
    if is_by u (donor_for persona d) then rest +ℤ d.amount else rest

abbrev pub count_of : (persona donor : ℕ) → List Donation → ℕ
count_of persona u [] = 0
count_of persona u (d ∷ ds) =
    let rest = count_of persona u ds in if is_by u (donor_for persona d) then suc rest else rest

abbrev pub or_now : Option ℕ → Option ℕ → Option ℕ
or_now none n = n
or_now (some i) n = some i

-- How many rows stand before the user's first donation
abbrev pub first_of : (persona donor : ℕ) → List Donation → Option ℕ
first_of persona u [] = none
first_of persona u (d ∷ ds) =
    or_now (first_of persona u ds)
      (if is_by u (donor_for persona d) then some (length ds) else none)

abbrev pub IsTotal : ℕ → List Donation → DonorRow → Type 0
IsTotal persona ds t =
    (t.total ≡ sum_of persona t.donor_id ds)
    × (t.count ≡ count_of persona t.donor_id ds)
    × (first_of persona t.donor_id ds ≡ some t.first_at)

-- How many rows a donor has
abbrev pub times : ℕ → List DonorRow → ℕ
times u [] = 0
times u (t ∷ ts) = (if t.donor_id == u then 1 else 0) + times u ts

pub times-add_row_new :
    (u v : ℕ) (a : ℤ) (i : ℕ) (ts : List DonorRow)
    → times u ts ≡ 0
    → times v (add_row u a i ts) ≡ (if u == v then 1 else 0) + times v ts
times-add_row_new u v a i [] h = refl
times-add_row_new u v a i (t ∷ ts) h = ground (arith, times-add_row_new u v a i ts)

pub times-add_row_known :
    (u v : ℕ) (a : ℤ) (i : ℕ) (ts : List DonorRow)
    → 0 < times u ts
    → times v (add_row u a i ts) ≡ times v ts
times-add_row_known u v a i [] h = absurd (omega arith)
times-add_row_known u v a i (t ∷ ts) h = ground (arith, times-add_row_known u v a i ts)

pub none_given :
    (persona u : ℕ) (ds : List Donation)
    → first_of persona u ds ≡ none
    → (sum_of persona u ds ≡ pos 0) × (count_of persona u ds ≡ 0)
none_given persona u [] h = (refl, refl)
none_given persona u (d ∷ ds) h = ground (arith, none_given persona u ds)

pub add_zero : (a : ℤ) → pos 0 +ℤ a ≡ a
add_zero a = omega int_laws

-- A donation of another donor leaves a row right.
pub IsTotal-other :
    (persona : ℕ) (d : Donation) (ds : List Donation) (t : DonorRow)
    → is_by t.donor_id (donor_for persona d) ≡ false
    → IsTotal persona ds t
    → IsTotal persona (d ∷ ds) t
IsTotal-other persona d ds t apart (a, b, c) = (
  a ∙ sym (if_false _ _ apart),
  b ∙ sym (if_false _ _ apart),
  ap (λ o. or_now o (if is_by t.donor_id (donor_for persona d) then some (length ds) else none)) c,
)

pub IsTotal-same :
    (persona : ℕ) (d : Donation) (ds : List Donation) (t : DonorRow)
    → is_by t.donor_id (donor_for persona d) ≡ true
    → IsTotal persona ds t
    → IsTotal persona (d ∷ ds) (record t { total = t.total +ℤ d.amount; count = suc t.count })
IsTotal-same persona d ds t same (a, b, c) = (
  ap (λ x. x +ℤ d.amount) a ∙ sym (if_true _ _ same),
  ap suc b ∙ sym (if_true _ _ same),
  ap (λ o. or_now o (if is_by t.donor_id (donor_for persona d) then some (length ds) else none)) c,
)

pub IsTotal-new :
    (persona u : ℕ) (d : Donation) (ds : List Donation)
    → is_by u (donor_for persona d) ≡ true
    → first_of persona u ds ≡ none
    → IsTotal persona
        (d ∷ ds)
        (record { donor_id = u; total = d.amount; count = 1; first_at = length ds })
IsTotal-new persona u d ds same new =
    let (nothing, no_row) = none_given persona u ds new in
    (
      sym (add_zero d.amount) ∙ ap (λ x. x +ℤ d.amount) (sym nothing) ∙ sym (if_true _ _ same),
      ap suc (sym no_row) ∙ sym (if_true _ _ same),
      ap (λ o. or_now o (if is_by u (donor_for persona d) then some (length ds) else none)) new
          ∙ if_true _ _ same,
    )

pub IsTotal-others :
    (persona u : ℕ) (d : Donation) (ds : List Donation) (ts : List DonorRow)
    → donor_for persona d ≡ some u
    → times u ts ≡ 0
    → All (IsTotal persona ds) ts
    → All (IsTotal persona (d ∷ ds)) ts
IsTotal-others persona u d ds [] e h all = tt
IsTotal-others persona u d ds (t ∷ ts) e h (right, all) = (
  IsTotal-other persona d ds t (rw e (ground arith)) right,
  IsTotal-others persona u d ds ts e (ground arith) all,
)

pub add_row-IsTotal :
    (persona u : ℕ) (d : Donation) (ds : List Donation) (ts : List DonorRow)
    → donor_for persona d ≡ some u
    → times u ts ≤ 1
    → (times u ts ≡ 0 → first_of persona u ds ≡ none)
    → All (IsTotal persona ds) ts
    → All (IsTotal persona (d ∷ ds)) (add_row u d.amount (length ds) ts)
add_row-IsTotal persona u d ds [] e once fresh all =
    (IsTotal-new persona u d ds (rw e (eq_refl u)) (fresh refl), tt)
add_row-IsTotal persona u d ds (t ∷ ts) e once fresh (right, all) =
    elim (Bool-cases (t.donor_id == u)) [
      | inl hit ↦ rw hit (
        IsTotal-same persona d ds t (rw e (ground arith)) right,
        IsTotal-others persona u d ds ts e (ground arith) all,
      )
      | inr miss ↦ rw miss (
        IsTotal-other persona d ds t (rw e (ground arith)) right,
        add_row-IsTotal persona u d ds ts e (ground arith) (λ h. fresh (ground arith)) all,
      )
    ]
