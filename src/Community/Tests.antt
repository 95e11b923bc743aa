-- ===== src/Community/Tests.antt =====
-- The community theorems at concrete inputs.
use project_aria.Common.Int.{pos, ◌+ℤ◌}
use project_aria.Common.Error.{ok}
use project_aria.Wallet.Model.{Donation}
use project_aria.Wallet.Ranking.{top_donors}
use project_aria.Community.Ranking.{Supporter, validate_supporter, rank_donors, top_supporters}
use project_aria.Community.Supporters.{IsPositive, IsRanked, top_supporters-IsRanked}
use project_aria.Common.{
  ℕ, Option, ◌≡◌, ◌⊎◌, refl, true, none, some, List, [], ◌∷◌, ◌==◌, if◌then◌else◌, arith, All,
}
use project_aria.Common.Text.{Text, codes}
use project_aria.Community.Story.{Story, pending, done, claim_next_pending}
use project_aria.Community.Reading.{IsPassed, IsClaimed, claim_next_pending-IsClaimed}
use project_aria.Community.Like.{Likes, count_by_persona, missing, counted, Board}
use project_aria.Community.Counting.{like_call, call, IsCoherent, call-IsCoherent}

abbrev told : Story
told = record {
  id = 1;
  persona_id = 5;
  author_id = some 2;
  title = codes "first";
  content = codes "once";
  is_anonymous = true;
  relationship_stage = none;
  nickname = none;
  status = done;
}

abbrev waiting : Story
waiting = record told { id = 2; status = pending }

abbrev stories : List Story
stories = told ∷ waiting ∷ []

claim_next_pending-IsClaimed_example :
    ((claim_next_pending 5 stories ≡ (none, stories)) × All (IsPassed 5) stories)
    ⊎ ((s : Story) × ((claim_next_pending 5 stories).0 ≡ some s)
        × IsClaimed 5 stories s (claim_next_pending 5 stories).1)
claim_next_pending-IsClaimed_example = claim_next_pending-IsClaimed 5 stories

abbrev likes : Likes
likes = (5, 2) ∷ (5, 3) ∷ (6, 2) ∷ []

abbrev board : Board
board = record { likes = likes; cache = λ q. if q == 5 then counted 2 else missing }

board-IsCoherent : IsCoherent board
unfolding count_by_persona
board-IsCoherent q n h = ground arith

call-IsCoherent_example : IsCoherent (call (like_call true 5 9) board)
call-IsCoherent_example = call-IsCoherent (like_call true 5 9) board refl board-IsCoherent

abbrev gave : (i donor amount : ℕ) → Donation
gave i donor amount = record {
  id = i;
  persona_id = 7;
  donor_id = some donor;
  room_id = none;
  amount = pos amount;
  message = none;
}

-- The newest first. One donation has no donor any more, and one user has no name.
abbrev given : List Donation
given =
    gave 5 2 300
    ∷ gave 4 3 500
    ∷ record (gave 3 9 900) { donor_id = none }
    ∷ gave 2 2 200
    ∷ gave 1 4 100
    ∷ []

abbrev name_for : ℕ → Option Text
name_for u = if u == 3 then none else some (codes "viewer")

given-IsPositive : All IsPositive given
given-IsPositive = (omega arith, (omega arith, (omega arith, (omega arith, (omega arith, tt)))))

top_supporters-IsRanked_example :
    (out : List Supporter) × (top_supporters name_for 7 (pos 2) given ≡ ok out)
    × IsRanked name_for 7 2 given out
top_supporters-IsRanked_example = top_supporters-IsRanked name_for 7 (pos 2) given given-IsPositive

-- Of two equal sums the one that began first stands first.
ranking :
    top_supporters name_for 7 (pos 2) given
    ≡ ok (
        record {
          rank = 1;
          donor_id = 2;
          display_name = some (codes "viewer");
          total_amount = pos 500;
          donation_count = 2;
        }
        ∷ record {
          rank = 2;
          donor_id = 3;
          display_name = none;
          total_amount = pos 500;
          donation_count = 1;
        }
        ∷ [])
unfolding top_supporters rank_donors top_donors validate_supporter ◌+ℤ◌
ranking = refl
