-- ===== src/Wallet/Service.antt =====
-- wallet/application/service.py and wallet/adapter/outbound/superchat.py. The identifiers that
-- the constructors draw are arguments.
use project_aria.Common.{ℕ, Option, none, some}
use project_aria.Common.Int.{ℤ, neg}
use project_aria.Common.Error.{Result, ok, err}
use project_aria.Common.Text.{Text}
use project_aria.Common.Uuid
use project_aria.Wallet.Model.{
  TransactionType, donation, CreditTransaction, Donation, validate_transaction, validate_donation,
}
use project_aria.Wallet.Repository.Tables.{Db, balance_of}
use project_aria.Wallet.Repository.{apply}

-- What follows a validation, on the database that it has not touched.
abbrev pub or_reject {ℓ κ} :
    {A : Type ℓ} {B : Type κ} → Result A → (A → Db → Result B × Db) → Db → Result B × Db
or_reject (ok a) f db = f a db
or_reject (err x) f db = (err x, db)

-- `WalletService.balance`
unfoldable pub balance : Db → ℕ → ℤ
balance db u = balance_of db u

-- `WalletService.grant`
unfoldable pub grant :
    (id user_id : ℕ) (credits : ℤ) (key ref_id : Option Text) (type : TransactionType)
    → Db
    → Result ℤ × Db
grant id user_id credits key ref_id type =
    or_reject
      (validate_transaction (record {
        id = id;
        user_id = user_id;
        delta = credits;
        type = type;
        ref_id = ref_id;
        idempotency_key = key;
      }))
      (λ e. apply e none)

-- The arguments of `donate`, with the identifiers of the donation and of the ledger row.
pub record Gift : Type 0 where
  pub donation_id : ℕ
  pub entry_id : ℕ
  pub donor_id : ℕ
  pub persona_id : ℕ
  pub amount : ℤ
  pub message : Option Text
  pub room_id : Option ℕ
  pub idempotency_key : Option Text

abbrev pub gift_donation : Gift → Donation
gift_donation g = record {
  id = g.donation_id;
  persona_id = g.persona_id;
  donor_id = some g.donor_id;
  room_id = g.room_id;
  amount = g.amount;
  message = g.message;
}

abbrev pub gift_entry : Gift → CreditTransaction
gift_entry g = record {
  id = g.entry_id;
  user_id = g.donor_id;
  delta = neg g.amount;
  type = donation;
  ref_id = some (Uuid.to_text g.donation_id);
  idempotency_key = g.idempotency_key;
}

-- `return donation`, after `apply` has returned
abbrev pub returning {ℓ} : {A : Type ℓ} → A → Result ℤ × Db → Result A × Db
returning a (ok _, db) = (ok a, db)
returning a (err x, db) = (err x, db)

-- `DonationService.donate`
unfoldable pub donate : Gift → Db → Result Donation × Db
donate g =
    or_reject (validate_donation (gift_donation g))
      λ d. or_reject (validate_transaction (gift_entry g)) λ e db. returning d (apply e (some d) db)

pub record SuperchatReceipt : Type 0 where
  pub donation_id : ℕ
  pub balance_after : ℤ

abbrev pub receipt : ℕ → Result Donation × Db → Result SuperchatReceipt × Db
receipt donor (ok d, db) =
    (ok (record { donation_id = d.id; balance_after = balance_of db donor }), db)
receipt donor (err x, db) = (err x, db)

-- `WalletSuperchat.charge`
unfoldable pub charge : Gift → Db → Result SuperchatReceipt × Db
charge g db = receipt g.donor_id (donate g db)
