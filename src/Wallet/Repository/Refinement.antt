-- ===== src/Wallet/Repository/Refinement.antt =====
-- `apply` against its specification on the ledger alone, where a balance is the sum of the deltas.
use project_aria.Common.{
  ℕ, ◌≡◌, refl, Bool, true, false, ◌||◌, Option, none, some, List, ◌∷◌, if◌then◌else◌, arith,
  Bool-cases, inl, inr, subst,
}
use project_aria.Common.Int.{ℤ, pos, ◌+ℤ◌, ◌≤ℤ◌, leb_ℤ}
use project_aria.Common.Error.{Result, ok, err, insufficient_credit, integrity_error}
use project_aria.Wallet.Model.{CreditTransaction, Donation, sign_matches_type}
use project_aria.Wallet.Repository.Tables.{
  Db, find_wallet, balance_of, key_used, id_used, donation_id_used,
}
use project_aria.Wallet.Repository.{ensure_wallet, insert_entry, insert_donation, post, apply}
use project_aria.Wallet.Repository.Balance.{Moved, update_balance-Moved, update_balance_short}
use project_aria.Wallet.Repository.Consistency.{IsConsistent, ledger_sum, IsDistinct}
use project_aria.Wallet.Repository.Apply.{
  ledger-ensure_wallet, donations-ensure_wallet, find_wallet-ensure_wallet,
  ensure_wallet-IsConsistent,
}

-- What the wallet promises: the ledger and the donations, and nothing that could disagree.
pub record Book : Type 0 where
  pub ledger : List CreditTransaction
  pub donations : List Donation

abbrev pub book : Db → Book
book db = record { ledger = db.ledger; donations = db.donations }

abbrev pub with_donation : Option Donation → List Donation → List Donation
with_donation none ds = ds
with_donation (some d) ds = d ∷ ds

abbrev donation_taken : Option Donation → List Donation → Bool
donation_taken none ds = false
donation_taken (some d) ds = donation_id_used d.id ds

abbrev pub is_duplicate : CreditTransaction → List CreditTransaction → Bool
is_duplicate e es = id_used e.id es || key_used e.idempotency_key es

-- An entry that is there already is answered with the balance. A new one is refused if it would
-- leave less than nothing, and otherwise written together with its donation.
abbrev pub post_to_book : CreditTransaction → Option Donation → Book → Result ℤ × Book
post_to_book e d k =
    let old = ledger_sum e.user_id k.ledger in
    if is_duplicate e k.ledger
    then (ok old, k)
    else if leb_ℤ (pos 0) (old +ℤ e.delta)
    then if donation_taken d k.donations then (err integrity_error, k) else (
      ok (old +ℤ e.delta),
      record { ledger = e ∷ k.ledger; donations = with_donation d k.donations },
    )
    else (err insufficient_credit, k)

insert_donation_taken :
    (d : Option Donation) (db : Db)
    → donation_taken d db.donations ≡ true
    → insert_donation d db ≡ err integrity_error
unfolding insert_donation
insert_donation_taken none db h = cc
insert_donation_taken (some d) db h = rw h

insert_donation_new :
    (d : Option Donation) (db : Db)
    → donation_taken d db.donations ≡ false
    → insert_donation d db ≡ ok (record db { donations = with_donation d db.donations })
unfolding insert_donation
insert_donation_new none db h = refl
insert_donation_new (some d) db h = rw h

pub record Refines (e : CreditTransaction) (d : Option Donation) (db : Db) (r : Result ℤ × Db)
    : Type 0 where
  pub result : r.0 ≡ (post_to_book e d (book db)).0
  pub written : book r.1 ≡ (post_to_book e d (book db)).1
  pub consistent : IsConsistent r.1

module _ (e : CreditTransaction) (db : Db) (h : IsConsistent db)
    (signed : sign_matches_type e.delta e.type ≡ true)
    (fresh : is_duplicate e db.ledger ≡ false) where
  abbrev flushed : Db
  flushed = record db { ledger = e ∷ db.ledger }

  IsDistinct-flushed : IsDistinct (e ∷ db.ledger)
  IsDistinct-flushed = ground (arith, h.distinct)

  Moved-IsConsistent :
      {db' : Db}
      → Moved e.user_id e.delta flushed db'
      → pos 0 ≤ℤ balance_of db e.user_id +ℤ e.delta
      → (ds : List Donation) → IsConsistent (record db' { donations = ds })
  Moved-IsConsistent m covered ds = record {
    unique = m.unique;
    balanced = λ v. rw m.ledger (ground (arith, m.balance v, h.balanced v));
    nonneg = λ v. ground (arith, m.balance v, h.nonneg v, covered);
    distinct = rw m.ledger IsDistinct-flushed;
    signed = rw m.ledger (signed, h.signed);
  }

module _ (e : CreditTransaction) (d : Option Donation) (db : Db) (h : IsConsistent db)
    (signed : sign_matches_type e.delta e.type ≡ true) (b : ℤ)
    (found : find_wallet e.user_id db.wallets ≡ some b) where
  old : balance_of db e.user_id ≡ ledger_sum e.user_id db.ledger
  old = h.balanced e.user_id

  balance_found : balance_of db e.user_id ≡ b
  balance_found = ground arith

  Refines-intro :
      (r : Result ℤ × Db) (x : Result ℤ) (db' : Db)
      → r ≡ (x, db')
      → post_to_book e d (book db) ≡ (x, book db')
      → IsConsistent db'
      → Refines e d db r
  Refines-intro r x db' p q c = rw p (record { result = rw q; written = rw q; consistent = c })

  post_duplicate :
      is_duplicate e db.ledger ≡ true → Refines e d db (post e d db (insert_entry e db))
  unfolding post insert_entry
  post_duplicate dup =
      Refines-intro _ (ok (balance_of db e.user_id)) db (rw dup) (rw dup (ground (arith, old))) h

  post_short :
      is_duplicate e db.ledger ≡ false
      → leb_ℤ (pos 0) (balance_of db e.user_id +ℤ e.delta) ≡ false
      → Refines e d db (post e d db (insert_entry e db))
  unfolding post insert_entry
  post_short fresh short =
      let refused =
        update_balance_short e b (flushed e db h signed fresh) h.unique found signed
          (ground (arith, h.nonneg e.user_id)) (ground arith) in
      Refines-intro _ (err insufficient_credit) db (rw (fresh, refused)) (rw (fresh, ← old, short))
        h

  post_covered :
      is_duplicate e db.ledger ≡ false
      → leb_ℤ (pos 0) (balance_of db e.user_id +ℤ e.delta) ≡ true
      → Refines e d db (post e d db (insert_entry e db))
  unfolding post insert_entry
  post_covered fresh covered =
      let new = flushed e db h signed fresh in
      let (mid, done, m) =
        update_balance-Moved e b new h.unique found signed (ground (arith, h.nonneg e.user_id))
          (ground arith) in
      let after : balance_of mid e.user_id ≡ balance_of db e.user_id +ℤ e.delta =
        ground (arith, m.balance e.user_id) in
      elim (Bool-cases (donation_taken d db.donations)) [
        | inl taken ↦
            Refines-intro _ (err integrity_error) db
              (rw (fresh, done, insert_donation_taken d mid (rw m.donations taken)))
              (rw (fresh, ← old, covered, taken)) h
        | inr free ↦
            Refines-intro _ (ok (balance_of db e.user_id +ℤ e.delta))
              (record mid { donations = with_donation d mid.donations })
              (rw (fresh, done, insert_donation_new d mid (rw m.donations free)) (rw after))
              (rw (fresh, ← old, covered, free, m.ledger, m.donations))
              (Moved-IsConsistent e db h signed fresh m (ground arith)
                (with_donation d mid.donations))
      ]

  post-Refines : Refines e d db (post e d db (insert_entry e db))
  post-Refines = elim (Bool-cases (is_duplicate e db.ledger)) [
    | inl dup ↦ post_duplicate dup
    | inr fresh ↦ elim (Bool-cases (leb_ℤ (pos 0) (balance_of db e.user_id +ℤ e.delta))) [
      | inl covered ↦ post_covered fresh covered
      | inr short ↦ post_short fresh short
    ]
  ]

book-ensure_wallet : (u : ℕ) (db : Db) → book (ensure_wallet u db) ≡ book db
book-ensure_wallet u db = rw (ledger-ensure_wallet u db, donations-ensure_wallet u db)

-- On consistent tables, for an entry that the validator let through, `apply` returns what the
-- specification on the ledger returns, writes the ledger rows and donations that it writes, and
-- leaves the tables consistent, on every branch: a duplicate, a balance that does not cover the
-- entry, a donation identifier that is taken, and success.
pub apply-Refines :
    (e : CreditTransaction) (d : Option Donation) (db : Db)
    → IsConsistent db
    → sign_matches_type e.delta e.type ≡ true
    → Refines e d db (apply e d db)
unfolding apply
apply-Refines e d db h signed =
    let (b, found) = find_wallet-ensure_wallet e.user_id db in
    let ready = ensure_wallet e.user_id db in
    let out = post e d ready (insert_entry e ready) in
    let same = book-ensure_wallet e.user_id db in
    let r =
      post-Refines e d (ensure_wallet e.user_id db) (ensure_wallet-IsConsistent e.user_id db h)
        signed b found in
    record {
      result = subst (λ k. out.0 ≡ (post_to_book e d k).0) same r.result;
      written = subst (λ k. book out.1 ≡ (post_to_book e d k).1) same r.written;
      consistent = r.consistent;
    }
