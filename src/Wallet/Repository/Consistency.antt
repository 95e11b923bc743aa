-- ===== src/Wallet/Repository/Consistency.antt =====
-- The invariant of the wallet tables: the ledger explains every balance.
use project_aria.Common.{ℕ, ◌≡◌, true, false, List, [], ◌∷◌, ◌==◌, if◌then◌else◌, All}
use project_aria.Common.Int.{ℤ, pos, ◌+ℤ◌, ◌≤ℤ◌}
use project_aria.Wallet.Model.{CreditTransaction, sign_matches_type}
use project_aria.Wallet.Repository.Tables.{Db, balance_of, key_used, id_used}
use project_aria.Wallet.Repository.Balance.{IsUnique}

-- `SUM(delta)` over the ledger rows of one user
abbrev pub ledger_sum : ℕ → List CreditTransaction → ℤ
ledger_sum u [] = pos 0
ledger_sum u (e ∷ es) = if e.user_id == u then ledger_sum u es +ℤ e.delta else ledger_sum u es

-- No two ledger rows share an identifier or a key.
abbrev pub IsDistinct : List CreditTransaction → Type 0
IsDistinct [] = Unit
IsDistinct (e ∷ es) =
    (key_used e.idempotency_key es ≡ false) × (id_used e.id es ≡ false) × IsDistinct es

pub record IsConsistent (db : Db) : Type 0 where
  pub unique : IsUnique db.wallets
  pub balanced : (u : ℕ) → balance_of db u ≡ ledger_sum u db.ledger
  pub nonneg : (u : ℕ) → pos 0 ≤ℤ balance_of db u
  pub distinct : IsDistinct db.ledger
  pub signed : All (λ e. sign_matches_type e.delta e.type ≡ true) db.ledger
