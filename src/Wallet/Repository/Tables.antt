-- ===== src/Wallet/Repository/Tables.antt =====
-- The tables of wallet/adapter/outbound/persistence/model.py and the SQL statements on them.
use project_aria.Common.{
  ℕ, ◌+◌, Bool, false, ◌||◌, ◌&&◌, Option, none, some, List, [], ◌∷◌, ◌==◌, if◌then◌else◌,
}
use project_aria.Common.Int.{ℤ, pos, ◌+ℤ◌, ◌-ℤ◌, leb_ℤ}
use project_aria.Common.Text.{Text, text_eq}
use project_aria.Wallet.Model.{CreditTransaction, Donation}

abbrev pub Wallets : Type 0
Wallets = List (ℕ × ℤ)

-- The committed rows, the newest first.
pub record Db : Type 0 where
  pub wallets : Wallets
  pub ledger : List CreditTransaction
  pub donations : List Donation

abbrev pub empty : Db
empty = record { wallets = []; ledger = []; donations = [] }

-- `session.get(WalletTable, user_id)`
abbrev pub find_wallet : ℕ → Wallets → Option ℤ
find_wallet u [] = none
find_wallet u ((v, b) ∷ ws) = if v == u then some b else find_wallet u ws

abbrev pub or_zero : Option ℤ → ℤ
or_zero none = pos 0
or_zero (some b) = b

-- `balance_of`
abbrev pub balance_of : Db → ℕ → ℤ
balance_of db u = or_zero (find_wallet u db.wallets)

-- Whether two nullable values of a unique column collide. NULLs are distinct.
abbrev pub same_key : Option Text → Option Text → Bool
same_key none k = false
same_key (some s) none = false
same_key (some s) (some t) = text_eq s t

abbrev pub key_used : Option Text → List CreditTransaction → Bool
key_used k [] = false
key_used k (e ∷ es) = same_key e.idempotency_key k || key_used k es

abbrev pub id_used : ℕ → List CreditTransaction → Bool
id_used i [] = false
id_used i (e ∷ es) = e.id == i || id_used i es

abbrev pub donation_id_used : ℕ → List Donation → Bool
donation_id_used i [] = false
donation_id_used i (d ∷ ds) = d.id == i || donation_id_used i ds

-- `UPDATE … SET credit_balance = credit_balance + amount WHERE user_id = u`
unfoldable pub credit_rows : ℕ → ℤ → Wallets → Wallets
credit_rows u amount [] = []
credit_rows u amount ((v, b) ∷ ws) =
    (v, if v == u then b +ℤ amount else b) ∷ credit_rows u amount ws

-- `WHERE user_id = u AND credit_balance >= amount`
abbrev pub is_covered : ℕ → ℤ → ℕ × ℤ → Bool
is_covered u amount (v, b) = v == u && leb_ℤ amount b

-- `UPDATE … SET credit_balance = credit_balance - amount` with that condition
unfoldable pub debit_rows : ℕ → ℤ → Wallets → Wallets
debit_rows u amount [] = []
debit_rows u amount ((v, b) ∷ ws) =
    (v, if is_covered u amount (v, b) then b -ℤ amount else b) ∷ debit_rows u amount ws

-- Its `rowcount`
unfoldable pub matching_rows : ℕ → ℤ → Wallets → ℕ
matching_rows u amount [] = 0
matching_rows u amount (w ∷ ws) =
    (if is_covered u amount w then 1 else 0) + matching_rows u amount ws
