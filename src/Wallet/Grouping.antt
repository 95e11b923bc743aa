-- ===== src/Wallet/Grouping.antt =====
-- The groups of the ranking, and how often a donor stands among them.
use project_aria.Common.{
  ℕ, ◌+◌, ◌≤◌, ◌≡◌, ◌≢◌, refl, sym, ap, ◌∙◌, subst, Bool, true, false, Option, none, some, is_some,
  List, [], ◌∷◌, ◌==◌, if◌then◌else◌, length, All, All-map, arith, Option-cases, inl, inr, if_false,
}
use project_aria.Wallet.Model.{Donation}
use project_aria.Wallet.Ranking.{DonorRow, donor_for, add_row, add_donation, grouped}
use project_aria.Wallet.Totals.{
  is_by, or_now, first_of, IsTotal, times, times-add_row_new, times-add_row_known, IsTotal-other,
  add_row-IsTotal,
}

abbrev pub IsGrouped : ℕ → List Donation → List DonorRow → Type 0
IsGrouped persona ds ts =
    All (IsTotal persona ds) ts
    × ((u : ℕ) → times u ts ≡ (if is_some (first_of persona u ds) then 1 else 0))

some-ne-none : (i : ℕ) (o : Option ℕ) → o ≡ some i → o ≢ none
some-ne-none i none h e = cc
some-ne-none i (some j) h e = cc

counted_new :
    (b : Bool) (o : Option ℕ) (i m : ℕ)
    → m ≡ (if is_some o then 1 else 0)
    → (b ≡ true → o ≡ none)
    → (if b then 1 else 0) + m ≡ (if is_some (or_now o (if b then some i else none)) then 1 else 0)
counted_new true none i m h new = omega (arith, h)
counted_new true (some j) i m h new = absurd (some-ne-none j (some j) refl (new refl))
counted_new false none i m h new = omega (arith, h)
counted_new false (some j) i m h new = omega (arith, h)

counted_known :
    (b : Bool) (o : Option ℕ) (i j m : ℕ)
    → m ≡ (if is_some o then 1 else 0)
    → (b ≡ true → o ≡ some j)
    → m ≡ (if is_some (or_now o (if b then some i else none)) then 1 else 0)
counted_known true none i j m h known = absurd (some-ne-none j none (known refl) refl)
counted_known true (some k) i j m h known = h
counted_known false none i j m h known = h
counted_known false (some k) i j m h known = h

times-add_donation :
    (persona u : ℕ) (d : Donation) (ds : List Donation) (ts : List DonorRow)
    → donor_for persona d ≡ some u
    → ((v : ℕ) → times v ts ≡ (if is_some (first_of persona v ds) then 1 else 0))
    → (v : ℕ)
    → times v (add_row u d.amount (length ds) ts)
      ≡ (if is_some (first_of persona v (d ∷ ds)) then 1 else 0)
times-add_donation persona u d ds ts e once v = elim (Option-cases (first_of persona u ds)) [
  | inl new ↦
      let absent : times u ts ≡ 0 = once u ∙ rw new refl in
      rw e (
        times-add_row_new u v d.amount (length ds) ts absent
        ∙ counted_new (u == v) (first_of persona v ds) (length ds) (times v ts) (once v)
            (λ h. ap (λ w. first_of persona w ds) (ground arith) ∙ new))
  | inr (i, known) ↦
      let one : times u ts ≡ 1 = once u ∙ rw known refl in
      rw e (
        times-add_row_known u v d.amount (length ds) ts (omega (arith, one))
        ∙ counted_known (u == v) (first_of persona v ds) (length ds) i (times v ts) (once v)
            (λ h. ap (λ w. first_of persona w ds) (ground arith) ∙ known))
]

at_most_one : (o : Option ℕ) → (if is_some o then 1 else 0) ≤ 1
at_most_one none = omega arith
at_most_one (some i) = omega arith

none_of_zero : (o : Option ℕ) → ◌≡◌ {A = ℕ} (if is_some o then 1 else 0) 0 → o ≡ none
none_of_zero none h = refl
none_of_zero (some i) h = absurd (omega (arith, h))

skipped : (o : Option ℕ) → o ≡ or_now o none
skipped none = refl
skipped (some i) = refl

pub first_of_skipped :
    (persona u : ℕ) (d : Donation) (ds : List Donation)
    → is_by u (donor_for persona d) ≡ false
    → first_of persona u (d ∷ ds) ≡ first_of persona u ds
first_of_skipped persona u d ds other =
    ap (λ o. or_now (first_of persona u ds) o) (if_false _ _ other)
    ∙ sym (skipped (first_of persona u ds))

add_donation-IsGrouped :
    (persona : ℕ) (o : Option ℕ) (d : Donation) (ds : List Donation) (ts : List DonorRow)
    → donor_for persona d ≡ o
    → IsGrouped persona ds ts
    → IsGrouped persona (d ∷ ds) (add_donation o d.amount (length ds) ts)
add_donation-IsGrouped persona none d ds ts e (right, once) = (
  All-map _ _ (λ t h. IsTotal-other persona d ds t (rw e refl) h) ts right,
  λ u.
      once u
      ∙ ap (λ o. if is_some o then 1 else 0)
          (skipped (first_of persona u ds)
            ∙ ap
                (λ o. or_now (first_of persona u ds) (if is_by u o then some (length ds) else none))
                (sym e)),
)
add_donation-IsGrouped persona (some u) d ds ts e (right, once) = (
  add_row-IsTotal persona u d ds ts e
      (subst (λ m. m ≤ 1) (sym (once u)) (at_most_one (first_of persona u ds)))
      (λ h. none_of_zero (first_of persona u ds) (sym (once u) ∙ h)) right,
  times-add_donation persona u d ds ts e once,
)

pub grouped-IsGrouped :
    (persona : ℕ) (ds : List Donation) → IsGrouped persona ds (grouped persona ds)
grouped-IsGrouped persona [] = (tt, λ u. refl)
grouped-IsGrouped persona (d ∷ ds) =
    add_donation-IsGrouped persona (donor_for persona d) d ds (grouped persona ds) refl
      (grouped-IsGrouped persona ds)
