-- ===== src/Auctions/TopBidders.antt =====
-- `getTopBiddersForAuction` of modules/auctions/auctions.service.ts, its aggregation stage by stage.
-- The last sort is a parameter, `leading`.
use ubuy_backend.Base.{
  ℕ, ◌≤◌, ◌<◌, ◌≡◌, ◌⊎◌, not, Option, none, some, List, [], ◌∷◌, ◌==◌, keep, reject, take, map,
  length, is_none, leb, if◌then◌else◌, get_or_else,
}
use ubuy_backend.Texts.{Text, codes}
use ubuy_backend.Domain.{AuctionId, UserId, Bid, User}
use ubuy_backend.Platform.{Env, Sorter}
use ubuy_backend.Platform.World.{
  World, Action, invalid_auction_id, auction_not_found, gets, pure, throw_if, ◌>>=◌, ◌>>◌,
}
use ubuy_backend.Pagination.{default_to, at_least_1}

pub record TopBidder : Type 0 where
  pub user_id : UserId
  pub amount : ℕ
  pub time : ℕ
  pub bidder_name : Text

pub record TopBidders : Type 0 where
  pub auction_id : AuctionId
  pub total : ℕ
  pub top_bidders : List TopBidder

-- `$group` by the user, with the amount and the time of the first bid of each.
pub record Group : Type 0 where
  pub user_id : UserId
  pub amount : ℕ
  pub time : ℕ

abbrev pub group_of : Bid → Group
group_of b = record { user_id = b.user_id; amount = b.amount; time = b.created_at }

unfoldable pub group_by_user : List Bid → List Group
group_by_user [] = []
group_by_user (b ∷ bs) = group_of b ∷ reject (λ g. g.user_id == b.user_id) (group_by_user bs)

-- `$ifNull`: the name, or else the username, or else the email, which every user has.
abbrev pub name_of : Option User → Text
name_of none = codes "Unknown bidder"
name_of (some u) = get_or_else u.name (get_or_else u.username u.email)

-- `$sort: { amount: -1, time: 1 }`
abbrev pub IsAhead : TopBidder → TopBidder → Type 0
IsAhead a b = (b.amount < a.amount) ⊎ ((b.amount ≡ a.amount) × (a.time ≤ b.time))

-- `Math.min(20, Math.max(1, limit))`, with 5 for a limit that is not given.
unfoldable pub top_limit : Option ℕ → ℕ
top_limit limit = let n = at_least_1 (default_to 5 limit) in if leb 20 n then 20 else n

module _ (e : Env) (leading : Sorter IsAhead) where
  -- `$lookup`, `$unwind` and `$project`
  abbrev pub with_name : List User → Group → TopBidder
  with_name users g = record {
    user_id = g.user_id;
    amount = g.amount;
    time = g.time;
    bidder_name = name_of (e.users.find_one (λ u. u.id == g.user_id) users);
  }

  unfoldable pub leaders : AuctionId → World → List TopBidder
  unfolding group_by_user
  leaders i w =
      leading.sort (
        map (with_name w.users)
          (group_by_user (e.best.sort (keep (λ b. b.auction_id == i) w.bids))))

  unfoldable pub get_top_bidders_for_auction : AuctionId → Option ℕ → Action TopBidders
  unfolding leaders top_limit
  get_top_bidders_for_auction i limit = do
    throw_if (not (e.is_valid_id i)) invalid_auction_id
    auction ← gets λ w. e.auctions.find_one (λ a. a.id == i) w.auctions
    top ← gets λ w. take (top_limit limit) (leaders i w)
    throw_if (is_none auction) auction_not_found
    pure (record { auction_id = i; total = length top; top_bidders = top })
