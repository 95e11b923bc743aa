-- ===== src/Wallet/Granting.antt =====
-- `grant` on the entries that the credit events make.
use project_aria.Common.{
  ℕ, ◌≡◌, ◌≤◌, true, false, none, some, ◌∷◌, ◌==◌, arith, if◌then◌else◌, ◌∙◌, sym, ap, length, ◌∙◌,
  sym,
}
use project_aria.Common.Int.{ℤ, pos, ◌+ℤ◌, neg, leb_ℤ, ◌<ℤ◌, neg_parts}
use project_aria.Common.Error.{Result, ok, err, insufficient_credit}
use project_aria.Common.Uuid
use project_aria.Wallet.Model.{
  CreditTransaction, purchase, refund, validate_transaction, sign_matches_type,
}
use project_aria.Wallet.Repository.Tables.{Db, balance_of}
use project_aria.Wallet.Repository.{apply}
use project_aria.Wallet.Repository.Consistency.{IsConsistent, ledger_sum}
use project_aria.Wallet.Repository.Refinement.{Book, book, Refines, apply-Refines, is_duplicate}
use project_aria.Wallet.Repository.Book.{Refines_refused, Refines_posted}
use project_aria.Wallet.Service.{grant}
use project_aria.Wallet.Events.{CreditEvent, purchase_confirmed, refunded}

-- The ledger rows that the two events make.
abbrev pub purchase_entry : ℕ → CreditEvent → CreditTransaction
purchase_entry id e = record {
  id = id;
  user_id = e.user_id;
  delta = e.credits;
  type = purchase;
  ref_id = some (Uuid.to_text e.payment_id);
  idempotency_key = some e.idempotency_key;
}

abbrev pub refund_entry : ℕ → CreditEvent → CreditTransaction
refund_entry id e = record {
  id = id;
  user_id = e.user_id;
  delta = neg e.credits;
  type = refund;
  ref_id = some (Uuid.to_text e.payment_id);
  idempotency_key = some e.idempotency_key;
}

-- What `from_payload` and the payments service make sure of.
pub record IsSound (e : CreditEvent) : Type 0 where
  pub positive : pos 0 <ℤ e.credits
  pub short_key : length e.idempotency_key ≤ 64

module _ (id : ℕ) (e : CreditEvent) (s : IsSound e) where
  pub purchase_signed : sign_matches_type e.credits purchase ≡ true
  unfolding sign_matches_type
  purchase_signed = ground (arith, s.positive)

  pub refund_signed : sign_matches_type (neg e.credits) refund ≡ true
  unfolding sign_matches_type
  refund_signed = ground (arith, s.positive, neg_parts e.credits)

  validate-purchase_entry : validate_transaction (purchase_entry id e) ≡ ok (purchase_entry id e)
  unfolding validate_transaction
  validate-purchase_entry =
      ground (arith, s.short_key, Uuid.length-to_text e.payment_id, purchase_signed)

  validate-refund_entry : validate_transaction (refund_entry id e) ≡ ok (refund_entry id e)
  unfolding validate_transaction
  validate-refund_entry =
      ground (arith, s.short_key, Uuid.length-to_text e.payment_id, refund_signed)

  pub purchase_confirmed-apply :
      (db : Db) → purchase_confirmed id e db ≡ apply (purchase_entry id e) none db
  unfolding purchase_confirmed grant
  purchase_confirmed-apply db = rw validate-purchase_entry

  pub refunded-apply : (db : Db) → refunded id e db ≡ apply (refund_entry id e) none db
  unfolding refunded grant
  refunded-apply db = rw validate-refund_entry

-- One more row, and the balance moved by its delta.
pub record IsPosted (row : CreditTransaction) (db : Db) (out : Result ℤ × Db) : Type 0 where
  pub result : out.0 ≡ ok (balance_of db row.user_id +ℤ row.delta)
  pub ledger : out.1.ledger ≡ row ∷ db.ledger
  pub donations : out.1.donations ≡ db.donations
  pub balances :
      (u : ℕ)
      → balance_of out.1 u
        ≡ (if row.user_id == u then balance_of db u +ℤ row.delta else balance_of db u)
  pub consistent : IsConsistent out.1

module _ (row : CreditTransaction) (db : Db) (h : IsConsistent db)
    (signed : sign_matches_type row.delta row.type ≡ true)
    (fresh : is_duplicate row db.ledger ≡ false) where
  refines : Refines row none db (apply row none db)
  refines = apply-Refines row none db h signed

  pub apply-IsPosted :
      leb_ℤ (pos 0) (balance_of db row.user_id +ℤ row.delta) ≡ true
      → IsPosted row db (apply row none db)
  apply-IsPosted covered =
      let result : (apply row none db).0 ≡ ok (balance_of db row.user_id +ℤ row.delta) =
        refines.result ∙ rw (fresh, ← h.balanced row.user_id, covered) in
      let written =
        Refines_posted row none db (apply row none db) refines
          (balance_of db row.user_id +ℤ row.delta) result fresh in
      record {
        result = result;
        ledger = ap (λ (k : Book). k.ledger) written;
        donations = ap (λ (k : Book). k.donations) written;
        balances = λ u. ground (
          arith,
          refines.consistent.balanced u,
          h.balanced u,
          ap (λ (k : Book). ledger_sum u k.ledger) written,
        );
        consistent = refines.consistent;
      }

  pub apply_short :
      leb_ℤ (pos 0) (balance_of db row.user_id +ℤ row.delta) ≡ false
      → ((apply row none db).0 ≡ err insufficient_credit)
        × (book (apply row none db).1 ≡ book db)
        × ((u : ℕ) → balance_of (apply row none db).1 u ≡ balance_of db u)
  apply_short short =
      let result : (apply row none db).0 ≡ err insufficient_credit =
        refines.result ∙ rw (fresh, ← h.balanced row.user_id, short) in
      let same =
        Refines_refused row none db (apply row none db) refines insufficient_credit result in
      (
        result,
        same,
        λ u.
            refines.consistent.balanced u
            ∙ ap (λ (k : Book). ledger_sum u k.ledger) same
            ∙ sym (h.balanced u),
      )
