-- ===== src/Wallet/Repository/Book.antt =====
-- Facts about the specification `post_to_book`, one for each way that it ends.
use project_aria.Common.{ℕ, ◌≡◌, ap, false, Option, ◌∷◌, arith, sym, ◌∙◌}
use project_aria.Common.Int.{ℤ}
use project_aria.Common.Error.{Error, Result, ok, err}
use project_aria.Wallet.Model.{CreditTransaction, Donation}
use project_aria.Wallet.Repository.Tables.{Db, balance_of}
use project_aria.Wallet.Repository.Consistency.{ledger_sum}
use project_aria.Wallet.Repository.Refinement.{
  Book, book, Refines, post_to_book, is_duplicate, with_donation,
}

module _ (e : CreditTransaction) (d : Option Donation) (k : Book) where
  book_refused : (x : Error) → (post_to_book e d k).0 ≡ err x → (post_to_book e d k).1 ≡ k
  book_refused x h = ground arith

  book_posted :
      (b : ℤ)
      → (post_to_book e d k).0 ≡ ok b
      → is_duplicate e k.ledger ≡ false
      → (post_to_book e d k).1
        ≡ record { ledger = e ∷ k.ledger; donations = with_donation d k.donations }
  book_posted b h fresh = ground arith

module _ (e : CreditTransaction) (d : Option Donation) (db : Db) (out : Result ℤ × Db)
    (r : Refines e d db out) where
  pub Refines_refused : (x : Error) → out.0 ≡ err x → book out.1 ≡ book db
  Refines_refused x h = r.written ∙ book_refused e d (book db) x (sym r.result ∙ h)

  pub Refines_posted :
      (b : ℤ)
      → out.0 ≡ ok b
      → is_duplicate e db.ledger ≡ false
      → book out.1 ≡ record { ledger = e ∷ db.ledger; donations = with_donation d db.donations }
  Refines_posted b h fresh = r.written ∙ book_posted e d (book db) b (sym r.result ∙ h) fresh

  -- A user of whom no row was written keeps the balance.
  pub Refines_balance :
      (u : ℕ) → balance_of out.1 u ≡ ledger_sum u (post_to_book e d (book db)).1.ledger
  Refines_balance u = r.consistent.balanced u ∙ ap (λ (k : Book). ledger_sum u k.ledger) r.written
