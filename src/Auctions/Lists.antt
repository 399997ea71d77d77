-- ===== src/Auctions/Lists.antt =====
-- modules/auctions/auctions.service.ts: `findAll`, `findActive`, `findByCategory`, `findCreatedByUser`
-- and `findBiddedByUser`, and when and under which key the first three are cached. The projections are
-- left out. Where a count is cached, the total is what `getCachedCount` serves for it (Auctions/Cache).
pub mod Overdue
pub mod Shared
use ubuy_backend.Base.{
  ℕ, ◌+◌, ◌-◌, ◌/◌, Bool, true, false, not, ◌&&◌, Option, none, some, is_some, List, [], ◌∷◌, ◌++◌,
  ◌==◌, ltb, length, keep, map, if◌then◌else◌, ⊤,
}
use ubuy_backend.Texts.{Text, codes, same_text, present}
use ubuy_backend.Domain.{AuctionId, UserId, Auction, Bid}
use ubuy_backend.Domain.Equality.{is_active}
use ubuy_backend.Platform.{Env}
use ubuy_backend.Platform.World.{
  World, Action, ok, err, missing_category, gets, modify, or_throw, pure, ◌>>=◌, ◌>>◌,
}
use ubuy_backend.Platform.Store.{swept}
use ubuy_backend.Pagination.{normalized_page, normalized_limit, page_of}
use ubuy_backend.Auth.Keys.{Keys}
use ubuy_backend.Auth.Codes.{decimal}
use ubuy_backend.Auctions.Lifecycle.{contains, sweep}

-- The answer of a list method; without meta data the total is null.
pub record AuctionList : Type 0 where
  pub page : ℕ
  pub limit : ℕ
  pub total : Option ℕ
  pub total_pages : Option ℕ
  pub items : List Auction

-- `Math.ceil(total / limit)`, where the limit is at least 1
abbrev pub ceil_div : ℕ → ℕ → ℕ
ceil_div total limit = (total + (limit - 1)) / limit

abbrev pub pages_of : Option ℕ → ℕ → Option ℕ
pages_of none limit = none
pages_of (some total) limit = some (ceil_div total limit)

abbrev pub list_of : Option ℕ → Option ℕ → Option ℕ → List Auction → AuctionList
list_of page limit total sorted = record {
  page = normalized_page page;
  limit = normalized_limit limit;
  total = total;
  total_pages = pages_of total (normalized_limit limit);
  items = page_of (normalized_page page) (normalized_limit limit) sorted;
}

-- `includeMeta ? await this.getCachedCount(…) : null`, given the count
abbrev pub total_if : Bool → ℕ → Option ℕ
total_if true n = some n
total_if false n = none

abbrev pub in_category : Text → Auction → Bool
in_category category a = same_text a.category category

-- `shouldUseListResponseCache`
unfoldable pub should_use_list_response_cache :
    (ttl page : ℕ) → (include_meta compact : Bool) → Bool
should_use_list_response_cache ttl page include_meta compact =
    ltb 0 ttl && page == 1 && not include_meta && compact

pub data Scope : Type 0 where
  all active category : Scope

abbrev pub scope_name : Scope → Text
scope_name all = codes "all"
scope_name active = codes "active"
scope_name category = codes "category"

module _ (k : Keys) where
  -- `category ? `:${category.toLowerCase()}` : ''`
  abbrev pub suffix : Option Text → Text
  suffix none = []
  suffix (some t) = b':' ∷ k.lower t

  -- `getListResponseCacheKey`
  unfoldable pub get_list_response_cache_key : Scope → (page limit : ℕ) → Option Text → Text
  unfolding decimal
  get_list_response_cache_key scope page limit t =
      codes "auctions:list:"
      ++ scope_name scope
      ++ b':' ∷ decimal page
      ++ b':' ∷ decimal limit
      ++ suffix (present t)

  -- The key under which `findAll`, `findActive` or `findByCategory` is cached, if it is.
  unfoldable pub response_key :
      Scope
      → Option Text
      → (ttl : ℕ) → (page limit : Option ℕ) → (include_meta compact : Bool) → Option Text
  unfolding should_use_list_response_cache get_list_response_cache_key
  response_key scope t ttl page limit include_meta compact =
      if should_use_list_response_cache ttl (normalized_page page) include_meta compact
      then some
          (get_list_response_cache_key scope (normalized_page page) (normalized_limit limit) t)
      else none

module _ (e : Env) where
  -- The fetch of `findAll`, given the count of all auctions that the cache serves.
  unfoldable pub fetch_all :
      (page limit : Option ℕ) → (include_meta : Bool) → (count : ℕ) → Action AuctionList
  fetch_all page limit include_meta n w =
      (ok (list_of page limit (total_if include_meta n) (e.last_created.sort w.auctions)), w)

  -- The fetch of `findActive`, given the count of active auctions that the cache serves.
  unfoldable pub fetch_active :
      (page limit : Option ℕ) → (include_meta : Bool) → (count : ℕ) → Action AuctionList
  fetch_active page limit include_meta n w = (
    ok (
        list_of page limit (total_if include_meta n)
          (e.last_created.sort (keep (λ a. is_active a.status) w.auctions))),
    w,
  )

  -- The fetch of `findByCategory`, for a trimmed category.
  unfoldable pub fetch_category :
      Text → (page limit : Option ℕ) → (include_meta : Bool) → (count : ℕ) → Action AuctionList
  fetch_category name page limit include_meta n w = (
    ok (
        list_of page limit (total_if include_meta n)
          (e.last_ending.sort (keep (in_category name) w.auctions))),
    w,
  )

  -- `updateMany({ createdBy: userId, endTime: { $lte: now }, status: 'ACTIVE' }, …)`
  unfoldable pub sweep_created : UserId → Action ⊤
  sweep_created u =
      modify λ w. record w { auctions = swept e (λ a. a.created_by == u) w.now w.auctions }

  unfoldable pub find_created_by_user :
      UserId → (page limit : Option ℕ) → (count : ℕ) → Action AuctionList
  unfolding sweep_created
  find_created_by_user u page limit n =
      sweep_created u
      >> gets λ w.
        list_of page limit (some n) (e.last_created.sort (keep (λ a. a.created_by == u) w.auctions))

-- `category?.trim()`
abbrev pub trimmed_category : Keys → Option Text → Option Text
trimmed_category k none = none
trimmed_category k (some t) = present (some (k.trim t))

module _ (e : Env) (k : Keys) where
  unfoldable pub find_by_category :
      Option Text
      → (page limit : Option ℕ) → (include_meta : Bool) → (count : ℕ) → Action AuctionList
  unfolding fetch_category
  find_by_category t page limit include_meta n = do
    name ← or_throw (trimmed_category k t) missing_category
    fetch_category e name page limit include_meta n

-- A group of the aggregation of `findBiddedByUser`.
pub record BidSummary : Type 0 where
  pub auction_id : AuctionId
  pub last_bid_at : ℕ
  pub highest_my_bid : ℕ
  pub last_bid_amount : ℕ

pub record BiddedAuction : Type 0 where
  pub auction : Auction
  pub winner_id : Option UserId
  pub my_bid : BidSummary

pub record BiddedList : Type 0 where
  pub page : ℕ
  pub limit : ℕ
  pub total : ℕ
  pub total_pages : ℕ
  pub bidded_auctions : List BiddedAuction

-- `a ?? b`
abbrev pub or_user : Option UserId → Option UserId → Option UserId
or_user none b = b
or_user (some a) b = some a

-- The aggregations are parameters: the groups of a user's bids, latest first, and the author of the
-- best bid on an auction.
module _ (e : Env) (summaries : UserId → List Bid → List BidSummary)
    (winner_by_auction_id : AuctionId → List Bid → Option UserId) where
  abbrev pub bidded : Option Auction → BidSummary → List Bid → List BiddedAuction
  bidded none item bids = []
  bidded (some a) item bids =
      record {
        auction = a;
        winner_id =
            or_user (winner_by_auction_id item.auction_id bids) (or_user a.winner a.highest_bidder);
        my_bid = item;
      }
      ∷ []

  -- The items whose auction is there.
  abbrev pub bidded_all : List BidSummary → World → List BiddedAuction
  bidded_all [] w = []
  bidded_all (item ∷ items) w =
      bidded (e.auctions.find_one (λ a. a.id == item.auction_id) w.auctions) item w.bids
      ++ bidded_all items w

  abbrev pub bidded_list : (page limit : Option ℕ) → ℕ → List BiddedAuction → BiddedList
  bidded_list page limit total items = record {
    page = normalized_page page;
    limit = normalized_limit limit;
    total = total;
    total_pages = ceil_div total (normalized_limit limit);
    bidded_auctions = items;
  }

  abbrev pub bidded_page : (page limit : Option ℕ) → ℕ → List BidSummary → Action BiddedList
  bidded_page page limit total [] = pure (bidded_list page limit total [])
  bidded_page page limit total (item ∷ items) =
      sweep e (map (λ (x : BidSummary). x.auction_id) (item ∷ items))
      >> gets λ w. bidded_list page limit total (bidded_all (item ∷ items) w)

  unfoldable pub find_bidded_by_user : UserId → (page limit : Option ℕ) → Action BiddedList
  unfolding sweep
  find_bidded_by_user u page limit w =
      let groups = summaries u w.bids in
      bidded_page page limit (length groups)
        (page_of (normalized_page page) (normalized_limit limit) groups) w
