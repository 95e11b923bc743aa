-- ===== src/Community/Supporters.antt =====
-- The supporters of a persona against the donations that it received.
use project_aria.Common.{
  ℕ, suc, ◌≤◌, ◌<◌, ◌≡◌, refl, sym, ◌∙◌, true, Option, some, is_some, List, [], ◌∷◌, if◌then◌else◌,
  leb, ltb, take, drop, take-append-drop, map, All, All-map, All-take, arith, Bool-cases, inl, inr,
  subst,
}
use project_aria.Common.Int.{ℤ, pos, ◌≤ℤ◌, ◌<ℤ◌, ltb_ℤ, int_laws}
use project_aria.Common.Error.{Result, ok}
use project_aria.Common.Text.{Text}
use project_aria.Wallet.Model.{Donation}
use project_aria.Wallet.Ranking.{
  DonorRow, donor_for, grouped, ordered, DonorTotal, donor_total, all_of, top_donors,
}
use project_aria.Wallet.Totals.{is_by, sum_of, count_of, first_of, IsTotal, times}
use project_aria.Wallet.Grouping.{first_of_skipped, grouped-IsGrouped}
use project_aria.Wallet.Falling.{IsFalling, All-ordered, times-ordered, ordered-IsFalling}
use project_aria.Community.Ranking.{
  DonorRank, donor_rank, rank_donors, Supporter, validate_supporter, numbered, clamped,
  top_supporters,
}

-- A list of supporters shows rows, one after the other, with positions from one on
abbrev pub AreShown : (ℕ → Option Text) → ℕ → List Supporter → List DonorRow → Type 0
AreShown names k [] [] = Unit {0}
AreShown names k [] (t ∷ ts) = ⊥
AreShown names k (s ∷ ss) [] = ⊥
AreShown names k (s ∷ ss) (t ∷ ts) =
    (s.rank ≡ k)
    × (s.donor_id ≡ t.donor_id)
    × (s.display_name ≡ names t.donor_id)
    × (s.total_amount ≡ t.total)
    × (s.donation_count ≡ t.count)
    × AreShown names (suc k) ss ts

-- A ranking of every donor, one row each with what they gave, by falling sums, of which the list
-- shows as many as it was asked for
pub record IsRanked (names : ℕ → Option Text) (persona n : ℕ) (ds : List Donation)
    (out : List Supporter) : Type 0 where
  pub rows : List DonorRow
  pub totals : All (IsTotal persona ds) rows
  pub once : (u : ℕ) → times u rows ≡ (if is_some (first_of persona u ds) then 1 else 0)
  pub falling : IsFalling rows
  pub shown : AreShown names 1 out (take n rows)

abbrev pub IsPositive : Donation → Type 0
IsPositive d = pos 0 <ℤ d.amount

sum_of-nonneg :
    (persona u : ℕ) (ds : List Donation) → All IsPositive ds → pos 0 ≤ℤ sum_of persona u ds
sum_of-nonneg persona u [] all = omega arith
sum_of-nonneg persona u (d ∷ ds) (h, all) = elim (Bool-cases (is_by u (donor_for persona d))) [
  | inl by ↦ let rest = sum_of-nonneg persona u ds all in rw by (omega (int_laws, rest, h))
  | inr other ↦ rw other (sum_of-nonneg persona u ds all)
]

sum_of_given :
    (persona u i : ℕ) (ds : List Donation)
    → All IsPositive ds
    → first_of persona u ds ≡ some i
    → (pos 0 <ℤ sum_of persona u ds) × (0 < count_of persona u ds)
sum_of_given persona u i [] all h = cc
sum_of_given persona u i (d ∷ ds) (p, all) h = elim (Bool-cases (is_by u (donor_for persona d))) [
  | inl by ↦
      let rest = sum_of-nonneg persona u ds all in rw by (omega (int_laws, rest, p), omega arith)
  | inr other ↦
      rw other (sum_of_given persona u i ds all (sym (first_of_skipped persona u d ds other) ∙ h))
]

-- The row as a total, and as a rank
abbrev total_of : DonorRow → DonorTotal
total_of t = record { donor_id = t.donor_id; total_amount = t.total; donation_count = t.count }

all_of-ok {ℓ κ} :
    {A : Type ℓ} {B : Type κ} (f : A → Result B) (g : A → B) (xs : List A)
    → All (λ a. f a ≡ ok (g a)) xs
    → all_of f xs ≡ ok (map g xs)
all_of-ok f g [] all = refl
all_of-ok f g (a ∷ xs) (h, all) = rw (h, all_of-ok f g xs all) refl

all_of-same {ℓ} :
    {A : Type ℓ} (f : A → Result A) (xs : List A) → All (λ a. f a ≡ ok a) xs → all_of f xs ≡ ok xs
all_of-same f [] all = refl
all_of-same f (a ∷ xs) (h, all) = rw (h, all_of-same f xs all) refl

-- What both constructors ask of a row
abbrev IsSound : DonorRow → Type 0
IsSound t = (ltb_ℤ (pos 0) t.total ≡ true) × (ltb 0 t.count ≡ true)

IsTotal-IsSound :
    (persona : ℕ) (ds : List Donation) (t : DonorRow)
    → All IsPositive ds
    → IsTotal persona ds t
    → IsSound t
IsTotal-IsSound persona ds t all (a, b, c) =
    let (more, some_rows) = sum_of_given persona t.donor_id t.first_at ds all c in
    (
      subst (λ x. ltb_ℤ (pos 0) x ≡ true) (sym a) (ground arith),
      subst (λ x. ltb 0 x ≡ true) (sym b) (ground arith),
    )

donor_total-ok : (t : DonorRow) → IsSound t → donor_total t ≡ ok (total_of t)
donor_total-ok t (above, counted) = rw (above, counted) refl

abbrev ranks_of : List DonorRow → List DonorRank
ranks_of ts = map donor_rank (map total_of ts)

numbered-valid :
    (names : ℕ → Option Text) (k : ℕ) (ts : List DonorRow)
    → 1 ≤ k
    → All IsSound ts
    → All (λ s. validate_supporter s ≡ ok s) (numbered names k (ranks_of ts))
unfolding validate_supporter
numbered-valid names k [] one all = tt
numbered-valid names k (t ∷ ts) one (h, all) = (
  (let from_one : leb 1 k ≡ true = ground arith in rw (from_one, h.0, h.1) refl),
  numbered-valid names (suc k) ts (omega (arith, one)) all,
)

numbered-AreShown :
    (names : ℕ → Option Text) (k : ℕ) (ts : List DonorRow)
    → AreShown names k (numbered names k (ranks_of ts)) ts
numbered-AreShown names k [] = tt
numbered-AreShown names k (t ∷ ts) =
    (refl, refl, refl, refl, refl, numbered-AreShown names (suc k) ts)

-- Donations of positive amounts: `top_supporters` succeeds, and it numbers from one on the first
-- entries, as many as the limit says but at least one and at most fifty, of a ranking in which each
-- donor of the persona stands once, with the sum and the number of its donations and its name if
-- there is one, by falling sums and, of equal sums, with the donor first who gave first.
pub top_supporters-IsRanked :
    (names : ℕ → Option Text) (persona : ℕ) (limit : ℤ) (ds : List Donation)
    → All IsPositive ds
    → (out : List Supporter) × (top_supporters names persona limit ds ≡ ok out)
      × IsRanked names persona (clamped limit) ds out
unfolding top_supporters rank_donors top_donors
top_supporters-IsRanked names persona limit ds all =
    let (right, once) = grouped-IsGrouped persona ds in
    let rows = ordered (grouped persona ds) in
    let n = clamped limit in
    let totals = All-ordered (IsTotal persona ds) (grouped persona ds) right in
    let sound : All IsSound (take n rows) = All-take IsSound (take n rows) (drop n rows) (
      subst (All IsSound) (sym (take-append-drop n rows)) (
        All-map (IsTotal persona ds) IsSound (λ t h. IsTotal-IsSound persona ds t all h) rows
          totals)) in
    let out = numbered names 1 (ranks_of (take n rows)) in
    let read : all_of donor_total (take n rows) ≡ ok (map total_of (take n rows)) =
      all_of-ok donor_total total_of (take n rows)
        (All-map IsSound _ donor_total-ok (take n rows) sound) in
    let checked : all_of validate_supporter out ≡ ok out =
      all_of-same validate_supporter out
        (numbered-valid names 1 (take n rows) (omega arith) sound) in
    (
      out,
      rw (read, checked) refl,
      record {
        rows = rows;
        totals = totals;
        once = λ u. times-ordered u (grouped persona ds) ∙ once u;
        falling = ordered-IsFalling (grouped persona ds);
        shown = numbered-AreShown names 1 (take n rows);
      },
    )
