-- ===== src/Community/Ranking.antt =====
-- community/application/service.py: the supporters of a persona. The names come from the identity
-- context, as a function of the identifiers, with none for a user who has left. The donations are
-- read by wallet/adapter/outbound/ranking.py without the cache in front of it.
use project_aria.Common.{ℕ, suc, ◌&&◌, Option, List, [], ◌∷◌, leb, ltb, map, min, max}
use project_aria.Common.Int.{ℤ, pos, negsuc, ltb_ℤ}
use project_aria.Common.Error.{Result, ok, value_error, guard, ◌>>=◌, ◌>>◌}
use project_aria.Common.Text.{Text}
use project_aria.Wallet.Model.{Donation}
use project_aria.Wallet.Ranking.{DonorTotal, all_of, top_donors}

-- `DonorRank`
pub record DonorRank : Type 0 where
  pub donor_id : ℕ
  pub total_amount : ℤ
  pub donation_count : ℕ

abbrev pub donor_rank : DonorTotal → DonorRank
donor_rank t = record {
  donor_id = t.donor_id;
  total_amount = t.total_amount;
  donation_count = t.donation_count;
}

-- `WalletDonationRanking.top_donors`
unfoldable pub rank_donors : ℕ → ℕ → List Donation → Result (List DonorRank)
rank_donors persona limit ds = do totals ← top_donors persona limit ds; ok (map donor_rank totals)

-- `Supporter`
pub record Supporter : Type 0 where
  pub rank : ℕ
  pub donor_id : ℕ
  pub display_name : Option Text
  pub total_amount : ℤ
  pub donation_count : ℕ

unfoldable pub validate_supporter : Supporter → Result Supporter
validate_supporter s = do
  guard (leb 1 s.rank && (ltb_ℤ (pos 0) s.total_amount && ltb 0 s.donation_count)) value_error
  ok s

abbrev pub numbered : (ℕ → Option Text) → (position : ℕ) → List DonorRank → List Supporter
numbered names k [] = []
numbered names k (r ∷ rs) =
    record {
      rank = k;
      donor_id = r.donor_id;
      display_name = names r.donor_id;
      total_amount = r.total_amount;
      donation_count = r.donation_count;
    }
    ∷ numbered names (suc k) rs

abbrev pub max_ranking_size : ℕ
max_ranking_size = 50

-- `min(max(limit, 1), MAX_RANKING_SIZE)`
abbrev pub clamped : ℤ → ℕ
clamped (pos n) = min (max n 1) max_ranking_size
clamped (negsuc n) = 1

-- `top_supporters`. Without donors there is nothing to look up, and nothing to number.
unfoldable pub top_supporters : (ℕ → Option Text) → ℕ → ℤ → List Donation → Result (List Supporter)
unfolding rank_donors
top_supporters names persona limit ds = do
  ranks ← rank_donors persona (clamped limit) ds
  all_of validate_supporter (numbered names 1 ranks)
