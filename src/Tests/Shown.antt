-- ===== src/Tests/Shown.antt =====
-- The theorems on top bidders and on listing a wishlist, at one auction.
use ubuy_backend.Base.{
  ℕ, ◌*◌, ◌≡◌, ◌≤◌, ◌<◌, ◌==◌, ◌&&◌, leb, ltb, ◌||◌, length, Bool, true, false, some, arith, count,
  refl, keep, [], ◌∷◌,
}
use ubuy_backend.Domain.{Wishlist, UserId}
use ubuy_backend.Platform.{Sorter}
use ubuy_backend.Platform.Memory.Sorting.{sort, count-sort, sort-IsSorted}
use ubuy_backend.Platform.World.{World, ok}
use ubuy_backend.Pagination.{normalized_limit}
use ubuy_backend.Auctions.TopBidders.{
  TopBidder, TopBidders, IsAhead, top_limit, get_top_bidders_for_auction,
}
use ubuy_backend.Auctions.Groups.{is_bid_of}
use ubuy_backend.Auctions.Leading.{
  is_wrong_entry, is_entry_of, IsServed, get_top_bidders_for_auction_lem,
}
use ubuy_backend.Wishlist.Listing.{IsAddedLater, Item, entries_of}
use ubuy_backend.Wishlist.Walked.{walk, shows, HasDistinctTimes, get_my_wishlist-walk}
use ubuy_backend.Tests.Market.{env, contested}

abbrev ahead : TopBidder → TopBidder → Bool
ahead a b = ltb b.amount a.amount || (b.amount == a.amount && leb a.time b.time)

ahead_ok : (a b : TopBidder) → ahead a b ≡ true → IsAhead a b
ahead_ok a b h = ground arith

ahead_not : (a b : TopBidder) → ahead a b ≡ false → IsAhead b a
ahead_not a b h = ground arith

ahead_trans : (a b c : TopBidder) → IsAhead a b → IsAhead b c → IsAhead a c
ahead_trans a b c h k = ground arith

abbrev highest_first : Sorter IsAhead
highest_first = record {
  sort = sort ahead;
  count-sort = count-sort ahead;
  sort-IsSorted = sort-IsSorted ahead IsAhead ahead_trans ahead_ok ahead_not;
}

get_top_bidders_for_auction_example :
    (r : TopBidders) × (get_top_bidders_for_auction env highest_first 1 (some 1) contested
      ≡ (ok r, contested))
    × (r.total ≡ length r.top_bidders)
    × (length r.top_bidders ≤ top_limit (some 1))
    × (1 ≤ top_limit (some 1))
    × (top_limit (some 1) ≤ 20)
    × (count (is_wrong_entry (keep (λ b. b.auction_id == 1) contested.bids)) r.top_bidders ≡ 0)
    × ((u : UserId) → count (is_entry_of u) r.top_bidders ≤ 1)
    × ((u : UserId) (x : ℕ)
        → 0 < count (is_bid_of u x) (keep (λ b. b.auction_id == 1) contested.bids)
        → IsServed u x (top_limit (some 1)) r.top_bidders)
get_top_bidders_for_auction_example =
    get_top_bidders_for_auction_lem env highest_first 1 contested (some 1) refl refl

abbrev pub added_later : Wishlist → Wishlist → Bool
added_later a b = leb b.created_at a.created_at

pub added_ok : (a b : Wishlist) → added_later a b ≡ true → IsAddedLater a b
added_ok a b h = ground arith

pub added_not : (a b : Wishlist) → added_later a b ≡ false → IsAddedLater b a
added_not a b h = ground arith

pub added_trans : (a b c : Wishlist) → IsAddedLater a b → IsAddedLater b c → IsAddedLater a c
added_trans a b c h k = omega arith

abbrev pub last_added_first : Sorter IsAddedLater
last_added_first = record {
  sort = sort added_later;
  count-sort = count-sort added_later;
  sort-IsSorted = sort-IsSorted added_later IsAddedLater added_trans added_ok added_not;
}

-- Two entries of user 8, one of an auction that is gone, and one of user 9.
abbrev wished : World
wished = record contested {
  wishlists =
      record { user_id = 8; auction_id = 1; created_at = 5 }
      ∷ record { user_id = 8; auction_id = 2; created_at = 6 }
      ∷ record { user_id = 9; auction_id = 1; created_at = 7 }
      ∷ [];
}

abbrev of_seller_7 : Item → Bool
of_seller_7 x = x.seller.id == 7

wished_few : count (entries_of 8) wished.wishlists ≤ 2 * normalized_limit (some 1)
unfolding normalized_limit
wished_few = omega arith

-- Whatever the page.
abbrev each_last_added_first : ℕ → Sorter IsAddedLater
each_last_added_first page = last_added_first

one_a_time : HasDistinctTimes 8 wished
one_a_time t = ground arith

get_my_wishlist-walk_example :
    count of_seller_7 (walk env each_last_added_first 8 (some 1) wished 2)
    ≡ count (λ x. entries_of 8 x && shows of_seller_7 wished x) wished.wishlists
get_my_wishlist-walk_example =
    get_my_wishlist-walk env each_last_added_first 8 (some 1) wished 2 of_seller_7 one_a_time
      wished_few

-- Only the entry of the auction that is there is shown.
wished_shown : count (λ x. entries_of 8 x && shows of_seller_7 wished x) wished.wishlists ≡ 1
wished_shown = refl
