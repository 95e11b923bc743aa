-- ===== src/Chat/Orchestration/Tests.antt =====
-- A superchat out of a purchase's credits.
use project_aria.Common.{refl, true, some, none, [], ◌∷◌, arith}
use project_aria.Common.Int.{pos, ◌+ℤ◌}
use project_aria.Common.Error.{ok, err, external}
use project_aria.Common.Text.{codes}
use project_aria.Wallet.Model.{sign_matches_type}
use project_aria.Wallet.Repository.Tables.{Db}
use project_aria.Wallet.Repository.Consistency.{IsConsistent}
use project_aria.Wallet.Granting.{purchase_entry}
use project_aria.Chat.Orchestration.{Superchat, Stage, Calls, handle_superchat}
use project_aria.Chat.Orchestration.Ordering.{IsOrdered, handle_superchat-IsOrdered}

-- Viewer 1 holds the 100 credits of a purchase.
abbrev funded : Db
funded = record {
  wallets = (1, pos 100) ∷ [];
  ledger =
      purchase_entry 50 (record {
        payment_id = 7;
        user_id = 1;
        credits = pos 100;
        idempotency_key = codes "payment:7:purchase";
      })
      ∷ [];
  donations = [];
}

funded-IsConsistent : IsConsistent funded
unfolding sign_matches_type ◌+ℤ◌
funded-IsConsistent = record {
  unique = (refl, tt);
  balanced = λ u. ground arith;
  nonneg = λ u. ground arith;
  distinct = (refl, refl, tt);
  signed = (refl, tt);
}

abbrev stage : Stage
stage = record {
  db = funded;
  touches = [];
  transcript = [];
  frames = [];
  asks = [];
  candidates = λ i. [];
}

abbrev thirty : Superchat
thirty = record {
  donation_id = 9;
  entry_id = 51;
  line_id = 60;
  room_id = 2;
  persona_id = 3;
  donor_id = 1;
  amount = pos 30;
  message = some (codes "go on");
  idempotency_key = none;
}

-- The broker refuses the request for thanks.
abbrev unthanked : Calls
unthanked = record {
  touched = ok tt;
  is_stored = true;
  shown = ok tt;
  asked = err external;
  kept = ok tt;
}

handle_superchat-IsOrdered_example :
    IsOrdered thirty stage (handle_superchat unthanked thirty stage)
handle_superchat-IsOrdered_example =
    handle_superchat-IsOrdered unthanked thirty stage funded-IsConsistent
