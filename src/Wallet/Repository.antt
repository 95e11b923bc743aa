-- ===== src/Wallet/Repository.antt =====
-- wallet/adapter/outbound/persistence/repository.py: `SqlModelWalletRepository` over the committed
-- rows. A transaction works on a copy, which a commit keeps and a rollback drops.
pub mod Tables
pub mod Balance
pub mod Consistency
pub mod Apply
pub mod Refinement
pub mod Book
use project_aria.Common.{
  ℕ, Bool, true, false, Option, none, some, List, [], ◌∷◌, ◌==◌, ◌||◌, if◌then◌else◌, ltb, is_some,
}
use project_aria.Common.Int.{ℤ, pos, neg, ltb_ℤ}
use project_aria.Common.Error.{Result, ok, err, integrity_error, insufficient_credit, ◌>>=◌}
use project_aria.Wallet.Model.{CreditTransaction, Donation}
use project_aria.Wallet.Repository.Tables.{
  Db, balance_of, find_wallet, key_used, id_used, donation_id_used, credit_rows, debit_rows,
  matching_rows,
}

-- `_ensure_wallet`, a transaction of its own
unfoldable pub ensure_wallet : ℕ → Db → Db
ensure_wallet u db =
    if is_some (find_wallet u db.wallets)
    then db
    else record db { wallets = (u, pos 0) ∷ db.wallets }

-- The insert and the flush: the primary key and the unique idempotency key may refuse the row.
unfoldable pub insert_entry : CreditTransaction → Db → Result Db
insert_entry e db =
    if id_used e.id db.ledger || key_used e.idempotency_key db.ledger
    then err integrity_error
    else ok (record db { ledger = e ∷ db.ledger })

-- `_credit`
unfoldable pub credit : ℕ → ℤ → Db → Db
unfolding credit_rows
credit u amount db = record db { wallets = credit_rows u amount db.wallets }

-- `_debit`: whether the UPDATE touched one row
unfoldable pub debit : ℕ → ℤ → Db → Bool × Db
unfolding debit_rows matching_rows
debit u amount db =
    (matching_rows u amount db.wallets == 1, record db { wallets = debit_rows u amount db.wallets })

-- Step 2 of `apply`
unfoldable pub update_balance : CreditTransaction → Db → Result Db
update_balance e db =
    if ltb_ℤ e.delta (pos 0)
    then (let (done, db') = debit e.user_id (neg e.delta) db in
        if done then ok db' else err insufficient_credit)
    else if ltb_ℤ (pos 0) e.delta
    then ok (credit e.user_id e.delta db)
    else ok db

-- Step 3 of `apply`
unfoldable pub insert_donation : Option Donation → Db → Result Db
insert_donation none db = ok db
insert_donation (some d) db =
    if donation_id_used d.id db.donations
    then err integrity_error
    else ok (record db { donations = d ∷ db.donations })

-- A commit and the balance after it, or the exception after a rollback to `db`.
abbrev pub settle : ℕ → Db → Result Db → Result ℤ × Db
settle u db (ok db') = (ok (balance_of db' u), db')
settle u db (err x) = (err x, db)

-- What `apply` does after the flush: a duplicate is no error, and changes nothing.
unfoldable pub post : CreditTransaction → Option Donation → Db → Result Db → Result ℤ × Db
post e d db (err _) = (ok (balance_of db e.user_id), db)
post e d db (ok flushed) =
    settle e.user_id db (do updated ← update_balance e flushed; insert_donation d updated)

unfoldable pub apply : CreditTransaction → Option Donation → Db → Result ℤ × Db
apply e d db = let ready = ensure_wallet e.user_id db in post e d ready (insert_entry e ready)
