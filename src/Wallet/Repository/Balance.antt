-- ===== src/Wallet/Repository/Balance.antt =====
-- The UPDATE statements of `_credit` and `_debit`, and step 2 of `apply` on top of them.
use project_aria.Common.{
  ℕ, ◌≡◌, refl, true, false, Option, none, some, [], ◌∷◌, ◌==◌, if◌then◌else◌, arith, Bool-cases,
  inl, inr,
}
use project_aria.Common.Int.{
  ℤ, pos, ◌+ℤ◌, ◌-ℤ◌, neg, ◌≤ℤ◌, leb_ℤ, ltb_ℤ, sub-neg, neg-neg, +ℤ_parts, neg_parts,
}
use mathlib.Core.Option
use project_aria.Common.Error.{ok, err, insufficient_credit}
use project_aria.Wallet.Model.{CreditTransaction, sign_matches_type, delta-ne-zero}
use project_aria.Wallet.Repository.Tables.{
  Db, Wallets, find_wallet, balance_of, credit_rows, debit_rows, matching_rows,
}
use project_aria.Wallet.Repository.{credit, debit, update_balance}

-- No user has two wallets.
abbrev pub IsUnique : Wallets → Type 0
IsUnique [] = Unit
IsUnique ((u, b) ∷ ws) = (find_wallet u ws ≡ none) × IsUnique ws

find_wallet-credit_rows :
    (u v : ℕ) (amount : ℤ) (ws : Wallets)
    → find_wallet v (credit_rows u amount ws)
      ≡ (if u == v then Option.map (λ b. b +ℤ amount) (find_wallet v ws) else find_wallet v ws)
unfolding credit_rows
find_wallet-credit_rows u v amount [] = ground arith
find_wallet-credit_rows u v amount ((w, b) ∷ ws) =
    ground (arith, find_wallet-credit_rows u v amount ws)

abbrev debited : ℤ → ℤ → ℤ
debited amount b = if leb_ℤ amount b then b -ℤ amount else b

find_wallet-debit_rows :
    (u v : ℕ) (amount : ℤ) (ws : Wallets)
    → find_wallet v (debit_rows u amount ws)
      ≡ (if u == v then Option.map (debited amount) (find_wallet v ws) else find_wallet v ws)
unfolding debit_rows
find_wallet-debit_rows u v amount [] = ground arith
find_wallet-debit_rows u v amount ((w, b) ∷ ws) =
    ground (arith, find_wallet-debit_rows u v amount ws)

abbrev rows_of : ℤ → Option ℤ → ℕ
rows_of amount none = 0
rows_of amount (some b) = if leb_ℤ amount b then 1 else 0

-- With one wallet for each user the UPDATE touches at most one row.
matching_rows_lem :
    (u : ℕ) (amount : ℤ) (ws : Wallets)
    → IsUnique ws
    → matching_rows u amount ws ≡ rows_of amount (find_wallet u ws)
unfolding matching_rows
matching_rows_lem u amount [] h = refl
matching_rows_lem u amount ((w, b) ∷ ws) h = ground (arith, matching_rows_lem u amount ws h.1)

find_wallet-credit_rows-none :
    (u v : ℕ) (amount : ℤ) (ws : Wallets)
    → find_wallet v ws ≡ none
    → find_wallet v (credit_rows u amount ws) ≡ none
find_wallet-credit_rows-none u v amount ws h = ground (arith, find_wallet-credit_rows u v amount ws)

find_wallet-debit_rows-none :
    (u v : ℕ) (amount : ℤ) (ws : Wallets)
    → find_wallet v ws ≡ none
    → find_wallet v (debit_rows u amount ws) ≡ none
find_wallet-debit_rows-none u v amount ws h = ground (arith, find_wallet-debit_rows u v amount ws)

credit_rows-IsUnique :
    (u : ℕ) (amount : ℤ) (ws : Wallets) → IsUnique ws → IsUnique (credit_rows u amount ws)
unfolding credit_rows
credit_rows-IsUnique u amount [] h = tt
credit_rows-IsUnique u amount ((v, b) ∷ ws) h =
    (find_wallet-credit_rows-none u v amount ws h.0, credit_rows-IsUnique u amount ws h.1)

debit_rows-IsUnique :
    (u : ℕ) (amount : ℤ) (ws : Wallets) → IsUnique ws → IsUnique (debit_rows u amount ws)
unfolding debit_rows
debit_rows-IsUnique u amount [] h = tt
debit_rows-IsUnique u amount ((v, b) ∷ ws) h =
    (find_wallet-debit_rows-none u v amount ws h.0, debit_rows-IsUnique u amount ws h.1)

-- What step 2 of `apply` does when it succeeds: one balance moves, nothing else.
pub record Moved (u : ℕ) (delta : ℤ) (db db' : Db) : Type 0 where
  pub unique : IsUnique db'.wallets
  pub balance :
      (v : ℕ) → balance_of db' v ≡ (if u == v then balance_of db v +ℤ delta else balance_of db v)
  pub ledger : db'.ledger ≡ db.ledger
  pub donations : db'.donations ≡ db.donations

module _ (u : ℕ) (b : ℤ) (db : Db) (unique : IsUnique db.wallets)
    (found : find_wallet u db.wallets ≡ some b) where
  pub credit-Moved : (amount : ℤ) → Moved u amount db (credit u amount db)
  unfolding credit
  credit-Moved amount = record {
    unique = credit_rows-IsUnique u amount db.wallets unique;
    balance = λ v. ground (arith, find_wallet-credit_rows u v amount db.wallets);
    ledger = refl;
    donations = refl;
  }

  debit_short : (amount : ℤ) → leb_ℤ amount b ≡ false → (debit u amount db).0 ≡ false
  unfolding debit
  debit_short amount h = ground (arith, matching_rows_lem u amount db.wallets unique)

  debit_done : (amount : ℤ) → (debit u amount db).0 ≡ true → leb_ℤ amount b ≡ true
  unfolding debit
  debit_done amount h = ground (arith, matching_rows_lem u amount db.wallets unique)

  pub debit-Moved :
      (amount : ℤ)
      → leb_ℤ amount b ≡ true
      → ((debit u amount db).0 ≡ true) × Moved u (neg amount) db (debit u amount db).1
  unfolding debit
  debit-Moved amount h = (
    ground (arith, matching_rows_lem u amount db.wallets unique),
    record {
      unique = debit_rows-IsUnique u amount db.wallets unique;
      balance = λ v. ground (arith, find_wallet-debit_rows u v amount db.wallets, sub-neg b amount);
      ledger = refl;
      donations = refl;
    },
  )

-- Step 2 of `apply` on an entry that the validator let through, for a user with a wallet.
module _ (e : CreditTransaction) (b : ℤ) (db : Db) (unique : IsUnique db.wallets)
    (found : find_wallet e.user_id db.wallets ≡ some b)
    (signed : sign_matches_type e.delta e.type ≡ true) where
  -- A covered entry moves the balance.
  pub update_balance-Moved :
      pos 0 ≤ℤ b
      → pos 0 ≤ℤ b +ℤ e.delta
      → (db' : Db) × (update_balance e db ≡ ok db') × Moved e.user_id e.delta db db'
  unfolding update_balance
  update_balance-Moved h k = elim (Bool-cases (ltb_ℤ e.delta (pos 0))) [
    | inl down ↦
        let (done, moved) =
          debit-Moved e.user_id b db unique found (neg e.delta) (covered down k) in
        ((debit e.user_id (neg e.delta) db).1, rw (down, done), rw (neg-neg e.delta) at moved)
    | inr up ↦ (
      credit e.user_id e.delta db,
      rw (up, positive up),
      credit-Moved e.user_id b db unique found e.delta,
    )
  ]
    where
      covered : ltb_ℤ e.delta (pos 0) ≡ true → pos 0 ≤ℤ b +ℤ e.delta → leb_ℤ (neg e.delta) b ≡ true
      covered down k = ground (arith, +ℤ_parts b e.delta, neg_parts e.delta)

      positive : ltb_ℤ e.delta (pos 0) ≡ false → ltb_ℤ (pos 0) e.delta ≡ true
      positive up = ground (arith, delta-ne-zero e.delta e.type signed)

  -- One that would leave less than nothing is refused.
  pub update_balance_short :
      pos 0 ≤ℤ b → ¬ (pos 0 ≤ℤ b +ℤ e.delta) → update_balance e db ≡ err insufficient_credit
  unfolding update_balance
  update_balance_short h k = ground (
    arith,
    +ℤ_parts b e.delta,
    neg_parts e.delta,
    debit_short e.user_id b db unique found (neg e.delta),
  )
