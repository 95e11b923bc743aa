-- ===== src/Wallet/Ranking.antt =====
-- The donors of a persona by what they gave: `top_donors` of
-- wallet/adapter/outbound/persistence/repository.py. The rows of the table stand newest first, by
-- `created_at`.
use project_aria.Common.{
  ℕ, suc, Bool, ◌||◌, ◌&&◌, Option, none, some, List, [], ◌∷◌, ◌==◌, if◌then◌else◌, leb, ltb,
  length, take,
}
use project_aria.Common.Int.{ℤ, pos, ◌+ℤ◌, ltb_ℤ, eqb_ℤ}
use project_aria.Common.Error.{Result, ok, value_error, guard, ◌>>=◌, ◌>>◌}
use project_aria.Wallet.Model.{Donation}

-- A group of the query: the donor, the sum, the count, and the time of the first donation, as the
-- number of rows before it
pub record DonorRow : Type 0 where
  pub donor_id : ℕ
  pub total : ℤ
  pub count : ℕ
  pub first_at : ℕ

-- The donor of a row that the WHERE clause takes
abbrev pub donor_for : ℕ → Donation → Option ℕ
donor_for persona d = if d.persona_id == persona then d.donor_id else none

abbrev pub add_row : (donor : ℕ) → ℤ → (at : ℕ) → List DonorRow → List DonorRow
add_row u amount i [] = record { donor_id = u; total = amount; count = 1; first_at = i } ∷ []
add_row u amount i (t ∷ ts) =
    if t.donor_id == u
    then record t { total = t.total +ℤ amount; count = suc t.count } ∷ ts
    else t ∷ add_row u amount i ts

abbrev pub add_donation : Option ℕ → ℤ → ℕ → List DonorRow → List DonorRow
add_donation none amount i ts = ts
add_donation (some u) amount i ts = add_row u amount i ts

-- `GROUP BY donor_id`
abbrev pub grouped : ℕ → List Donation → List DonorRow
grouped persona [] = []
grouped persona (d ∷ ds) =
    add_donation (donor_for persona d) d.amount (length ds) (grouped persona ds)

-- `ORDER BY total DESC, first_at ASC`
abbrev pub goes_first : DonorRow → DonorRow → Bool
goes_first t u = ltb_ℤ u.total t.total || (eqb_ℤ t.total u.total && leb t.first_at u.first_at)

abbrev pub insert_row : DonorRow → List DonorRow → List DonorRow
insert_row t [] = t ∷ []
insert_row t (u ∷ us) = if goes_first t u then t ∷ u ∷ us else u ∷ insert_row t us

abbrev pub ordered : List DonorRow → List DonorRow
ordered [] = []
ordered (t ∷ ts) = insert_row t (ordered ts)

-- `DonorTotal`
pub record DonorTotal : Type 0 where
  pub donor_id : ℕ
  pub total_amount : ℤ
  pub donation_count : ℕ

abbrev pub donor_total : DonorRow → Result DonorTotal
donor_total t = do
  guard (ltb_ℤ (pos 0) t.total && ltb 0 t.count) value_error
  ok (record { donor_id = t.donor_id; total_amount = t.total; donation_count = t.count })

abbrev pub all_of {ℓ κ} : {A : Type ℓ} {B : Type κ} → (A → Result B) → List A → Result (List B)
all_of f [] = ok []
all_of f (a ∷ xs) = do b ← f a; bs ← all_of f xs; ok (b ∷ bs)

-- `top_donors`
unfoldable pub top_donors : ℕ → ℕ → List Donation → Result (List DonorTotal)
top_donors persona limit ds = all_of donor_total (take limit (ordered (grouped persona ds)))
