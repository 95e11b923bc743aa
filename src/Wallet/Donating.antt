-- ===== src/Wallet/Donating.antt =====
-- Donations: the ledger row and the donation of one charge.
use project_aria.Common.{
  ℕ, ◌≡◌, ◌⊎◌, refl, ap, sym, subst, true, false, some, ◌∷◌, ◌==◌, arith, inl, inr, if◌then◌else◌,
}
use project_aria.Common.Int.{ℤ, pos, ◌+ℤ◌, neg}
use project_aria.Common.Error.{Error, Result, ok, err, Result-cases}
use project_aria.Wallet.Model.{
  Donation, validate_transaction, validate_donation, validate_transaction-ok, validate_donation-ok,
}
use project_aria.Wallet.Repository.Tables.{Db, balance_of, donation_id_used, key_used}
use project_aria.Wallet.Repository.{ensure_wallet}
use project_aria.Wallet.Repository.Apply.{
  apply_repeated, apply_refused, apply_duplicate, wallets-ensure_wallet, balance_of-ensure_wallet,
  ledger-ensure_wallet, donations-ensure_wallet,
}
use project_aria.Wallet.Repository.Consistency.{IsConsistent, ledger_sum}
use project_aria.Wallet.Repository.Refinement.{Book, book, Refines, apply-Refines, is_duplicate}
use project_aria.Wallet.Repository.Book.{Refines_posted}
use project_aria.Wallet.Service.{Gift, gift_donation, gift_entry, donate, charge, returning}

-- Nothing is posted: the ledger, the donations and every balance are as they were, and the wallets
-- too, but for an empty one that the donor may have got.
pub record IsUnposted (g : Gift) (db db' : Db) : Type 0 where
  pub rows : book db' ≡ book db
  pub balances : (u : ℕ) → balance_of db' u ≡ balance_of db u
  pub wallets : (db'.wallets ≡ db.wallets) ⊎ (db'.wallets ≡ (g.donor_id, pos 0) ∷ db.wallets)

-- What `donate` may have done, by how it ended.
pub record IsAtomic (g : Gift) (db : Db) (out : Result Donation × Db) : Type 0 where
  pub consistent : IsConsistent out.1
  pub refused : (x : Error) → out.0 ≡ err x → IsUnposted g db out.1
  pub repeated :
      (d : Donation)
      → out.0 ≡ ok d
      → is_duplicate (gift_entry g) db.ledger ≡ true
      → IsUnposted g db out.1
  pub given :
      (d : Donation)
      → out.0 ≡ ok d
      → is_duplicate (gift_entry g) db.ledger ≡ false
      → (out.1.ledger ≡ gift_entry g ∷ db.ledger)
        × (out.1.donations ≡ gift_donation g ∷ db.donations)
  pub balances :
      (d : Donation) (u : ℕ)
      → out.0 ≡ ok d
      → is_duplicate (gift_entry g) db.ledger ≡ false
      → balance_of out.1 u
        ≡ (if g.donor_id == u then balance_of db u +ℤ neg g.amount else balance_of db u)

ensure_wallet-IsUnposted :
    (g : Gift) (db db' : Db) → db' ≡ ensure_wallet g.donor_id db → IsUnposted g db db'
ensure_wallet-IsUnposted g db db' e = subst (IsUnposted g db) (sym e) (record {
  rows = rw (ledger-ensure_wallet g.donor_id db, donations-ensure_wallet g.donor_id db) refl;
  balances = λ u. balance_of-ensure_wallet g.donor_id u db;
  wallets = wallets-ensure_wallet g.donor_id db;
})

module _ (g : Gift) (db : Db) (h : IsConsistent db) where
  returning-IsAtomic :
      (out : Result ℤ × Db)
      → Refines (gift_entry g) (some (gift_donation g)) db out
      → ((x : Error) → out.0 ≡ err x → out.1 ≡ ensure_wallet g.donor_id db)
      → (is_duplicate (gift_entry g) db.ledger ≡ true → out.1 ≡ ensure_wallet g.donor_id db)
      → IsAtomic g db (returning (gift_donation g) out)
  returning-IsAtomic (ok b, db') r unposted again =
      let posted = Refines_posted (gift_entry g) (some (gift_donation g)) db (ok b, db') r b refl in
      record {
        consistent = r.consistent;
        refused = λ x e. cc;
        repeated = λ d e dup. ensure_wallet-IsUnposted g db db' (again dup);
        given = λ d e fresh. (
          ap (λ (k : Book). k.ledger) (posted fresh),
          ap (λ (k : Book). k.donations) (posted fresh),
        );
        balances = λ d u e fresh. ground (
          arith,
          r.consistent.balanced u,
          h.balanced u,
          ap (λ (k : Book). ledger_sum u k.ledger) (posted fresh),
        );
      }
  returning-IsAtomic (err y, db') r unposted again = record {
    consistent = r.consistent;
    refused = λ x e. ensure_wallet-IsUnposted g db db' (unposted y refl);
    repeated = λ d e dup. cc;
    given = λ d e fresh. cc;
    balances = λ d u e fresh. cc;
  }

  rejected-IsAtomic : (x : Error) → IsAtomic g db (err x, db)
  rejected-IsAtomic x = record {
    consistent = h;
    refused = λ y e. record { rows = refl; balances = λ u. refl; wallets = inl refl };
    repeated = λ d e dup. cc;
    given = λ d e fresh. cc;
    balances = λ d u e fresh. cc;
  }

  -- On consistent tables, a donation is atomic: refused, or with its key or row in the ledger already,
  -- it leaves the ledger, the donations and every balance as they were, and the wallets too, but for
  -- an empty one that the donor may have got; accepted and new, it adds its ledger row and its
  -- donation and moves the donor's balance alone, by its amount; and the tables stay consistent.
  pub donate-IsAtomic : IsAtomic g db (donate g db)
  unfolding donate
  donate-IsAtomic = elim (Result-cases (validate_donation (gift_donation g))) [
    | inr (x, bad) ↦ rw bad (rejected-IsAtomic x)
    | inl (d, good) ↦
        rw (good, validate_donation-ok (gift_donation g) d good)
          (elim (Result-cases (validate_transaction (gift_entry g))) [
            | inr (x, bad) ↦ rw bad (rejected-IsAtomic x)
            | inl (e, fine) ↦
                let (same, signed) = validate_transaction-ok (gift_entry g) e fine in
                rw (fine, same)
                  (returning-IsAtomic _
                    (apply-Refines (gift_entry g) (some (gift_donation g)) db h signed)
                    (apply_refused (gift_entry g) (some (gift_donation g)) db)
                    (apply_duplicate (gift_entry g) (some (gift_donation g)) db))
          ])
  ]

  -- On consistent tables, a gift that passes both validators, draws a new donation identifier and
  -- repeats an idempotency key in the ledger, be it another user's, is answered with a receipt as
  -- if it had been given: the receipt names a donation that no table holds, and neither the ledger
  -- nor the donations nor any balance have changed.
  pub charge_replayed :
      validate_donation (gift_donation g) ≡ ok (gift_donation g)
      → validate_transaction (gift_entry g) ≡ ok (gift_entry g)
      → key_used g.idempotency_key db.ledger ≡ true
      → donation_id_used g.donation_id db.donations ≡ false
      → ((charge g db).0
          ≡ ok (record { donation_id = g.donation_id; balance_after = balance_of db g.donor_id }))
        × (book (charge g db).1 ≡ book db)
        × (donation_id_used g.donation_id (charge g db).1.donations ≡ false)
        × ((u : ℕ) → balance_of (charge g db).1 u ≡ balance_of db u)
  unfolding charge donate
  charge_replayed valid fine used free =
      rw (valid, fine, apply_repeated (gift_entry g) (some (gift_donation g)) db used)
        (
          rw (balance_of-ensure_wallet g.donor_id g.donor_id db),
          rw (ledger-ensure_wallet g.donor_id db, donations-ensure_wallet g.donor_id db),
          rw (donations-ensure_wallet g.donor_id db) free,
          λ u. balance_of-ensure_wallet g.donor_id u db,
        )
