-- ===== src/Wallet/Repository/Apply.antt =====
-- What `apply` does on each of its branches, and that it keeps the tables consistent.
use project_aria.Common.{
  ℕ, ◌≡◌, ◌⊎◌, ◌||◌, refl, true, Option, some, ◌∷◌, arith, inl, inr, Option-cases,
}
use project_aria.Common.Int.{ℤ, pos}
use project_aria.Common.Error.{Error, Result, ok, err, ◌>>=◌}
use project_aria.Wallet.Model.{CreditTransaction, Donation}
use project_aria.Wallet.Repository.Tables.{Db, find_wallet, balance_of, key_used, id_used}
use project_aria.Wallet.Repository.{
  ensure_wallet, insert_entry, update_balance, insert_donation, settle, post, apply,
}
use project_aria.Wallet.Repository.Balance.{IsUnique}
use project_aria.Wallet.Repository.Consistency.{IsConsistent}

-- An empty wallet changes no balance.
pub balance_of-ensure_wallet :
    (u v : ℕ) (db : Db) → balance_of (ensure_wallet u db) v ≡ balance_of db v
unfolding ensure_wallet
balance_of-ensure_wallet u v db = ground arith

pub ledger-ensure_wallet : (u : ℕ) (db : Db) → (ensure_wallet u db).ledger ≡ db.ledger
unfolding ensure_wallet
ledger-ensure_wallet u db = ground arith

pub donations-ensure_wallet : (u : ℕ) (db : Db) → (ensure_wallet u db).donations ≡ db.donations
unfolding ensure_wallet
donations-ensure_wallet u db = ground arith

pub find_wallet-ensure_wallet :
    (u : ℕ) (db : Db) → (b : ℤ) × (find_wallet u (ensure_wallet u db).wallets ≡ some b)
unfolding ensure_wallet
find_wallet-ensure_wallet u db = elim (Option-cases (find_wallet u db.wallets)) [
  | inl new ↦ (pos 0, ground arith)
  | inr (b, old) ↦ (b, ground arith)
]

ensure_wallet-IsUnique :
    (u : ℕ) (db : Db) → IsUnique db.wallets → IsUnique (ensure_wallet u db).wallets
unfolding ensure_wallet
ensure_wallet-IsUnique u db h = ground arith

pub ensure_wallet-IsConsistent :
    (u : ℕ) (db : Db) → IsConsistent db → IsConsistent (ensure_wallet u db)
ensure_wallet-IsConsistent u db h = record {
  unique = ensure_wallet-IsUnique u db h.unique;
  balanced = λ v. rw (balance_of-ensure_wallet u v db, ledger-ensure_wallet u db) (h.balanced v);
  nonneg = λ v. rw (balance_of-ensure_wallet u v db) (h.nonneg v);
  distinct = rw (ledger-ensure_wallet u db) h.distinct;
  signed = rw (ledger-ensure_wallet u db) h.signed;
}

-- A key in the ledger makes `apply` a read of the balance.
pub apply_repeated :
    (e : CreditTransaction) (d : Option Donation) (db : Db)
    → key_used e.idempotency_key db.ledger ≡ true
    → apply e d db ≡ (ok (balance_of db e.user_id), ensure_wallet e.user_id db)
unfolding apply insert_entry post
apply_repeated e d db used =
    ground
      (arith, ledger-ensure_wallet e.user_id db, balance_of-ensure_wallet e.user_id e.user_id db)

settle_refused :
    (u : ℕ) (db : Db) (r : Result Db) (x : Error)
    → (settle u db r).0 ≡ err x
    → (settle u db r).1 ≡ db
settle_refused u db (ok db') x h = cc
settle_refused u db (err y) x h = refl

post_refused :
    (e : CreditTransaction) (d : Option Donation) (db : Db) (r : Result Db) (x : Error)
    → (post e d db r).0 ≡ err x
    → (post e d db r).1 ≡ db
unfolding post
post_refused e d db (err y) x h = cc
post_refused e d db (ok flushed) x h =
    settle_refused e.user_id db (do updated ← update_balance e flushed; insert_donation d updated) x
      h

-- What raises has only made the wallet row.
pub apply_refused :
    (e : CreditTransaction) (d : Option Donation) (db : Db) (x : Error)
    → (apply e d db).0 ≡ err x
    → (apply e d db).1 ≡ ensure_wallet e.user_id db
unfolding apply
apply_refused e d db x h =
    let ready = ensure_wallet e.user_id db in post_refused e d ready (insert_entry e ready) x h

-- So has a row that is there already.
pub apply_duplicate :
    (e : CreditTransaction) (d : Option Donation) (db : Db)
    → (id_used e.id db.ledger || key_used e.idempotency_key db.ledger) ≡ true
    → (apply e d db).1 ≡ ensure_wallet e.user_id db
unfolding apply insert_entry post
apply_duplicate e d db used =
    let ready = ensure_wallet e.user_id db in
    let there : (id_used e.id ready.ledger || key_used e.idempotency_key ready.ledger) ≡ true =
      rw (ledger-ensure_wallet e.user_id db) used in
    rw there refl

pub wallets-ensure_wallet :
    (u : ℕ) (db : Db)
    → ((ensure_wallet u db).wallets ≡ db.wallets)
      ⊎ ((ensure_wallet u db).wallets ≡ (u, pos 0) ∷ db.wallets)
unfolding ensure_wallet
wallets-ensure_wallet u db = elim (Option-cases (find_wallet u db.wallets)) [
  | inl new ↦ inr (rw new refl)
  | inr (b, old) ↦ inl (rw old refl)
]
