-- ===== src/Http/Auctions.antt =====
-- modules/auctions/auctions.controller.ts and modules/users/users.controller.ts: the handlers of the
-- routes, each with the guard of its route. The count that a list shows, where it is cached, and the
-- aggregations are parameters of the service. `queue/status` is left out.
use ubuy_backend.Base.{ℕ, Option, some, List, ⊤, get_or_else, []}
use ubuy_backend.Texts.{Text}
use ubuy_backend.Domain.{AuctionId, UserId, Auction, Bid}
use ubuy_backend.Platform.{Env, Sorter}
use ubuy_backend.Platform.World.{Action, gets, ◌>>=◌}
use ubuy_backend.Base.{◌==◌}
use ubuy_backend.Auth.Keys.{Keys}
use ubuy_backend.Auctions.Lifecycle.{
  CreateAuctionDto, EndReply, CancelReply, create, request_immediate_end, cancel_auction,
  delete_auction, BidStats, get_bid_stats_for_user,
}
use ubuy_backend.Auctions.Lists.{
  AuctionList, BidSummary, BiddedList, Scope, response_key, fetch_all, fetch_active,
  find_by_category, find_created_by_user, find_bidded_by_user,
}
use ubuy_backend.Auctions.Payment.{Confirmation, confirm_winner_payment}
use ubuy_backend.Auctions.TopBidders.{TopBidders, IsAhead, get_top_bidders_for_auction}
use ubuy_backend.Auctions.Winner.{Decision, DecisionReply, handle_payment_expiry_decision}
use ubuy_backend.Bids.{place_bid}
use ubuy_backend.Http.Guard.{Token, use_guard, user_id_of}
use ubuy_backend.Http.Queries.{ListQuery, number_of, wants_meta, is_compact}

module _ (e : Env) where
  unfoldable pub post_auction : Token → CreateAuctionDto → Action Auction
  unfolding use_guard
  post_auction token body = use_guard e token λ user. do u ← user_id_of user; create e body u

  unfoldable pub end_auction_now : Token → AuctionId → Action EndReply
  unfolding use_guard
  end_auction_now token i =
      use_guard e token λ user. do u ← user_id_of user; request_immediate_end e i u

  unfoldable pub post_cancel : Token → AuctionId → Action CancelReply
  unfolding use_guard
  post_cancel token i = use_guard e token λ user. do u ← user_id_of user; cancel_auction e i u

  unfoldable pub delete_by_id : Token → AuctionId → Action ⊤
  unfolding use_guard
  delete_by_id token i = use_guard e token λ user. do u ← user_id_of user; delete_auction e i u

  unfoldable pub post_confirm_payment : Token → AuctionId → Action Confirmation
  unfolding use_guard
  post_confirm_payment token i =
      use_guard e token λ user. do u ← user_id_of user; confirm_winner_payment e i u

  -- An error of `placeBid` is thrown again with its message; the status codes are left out.
  unfoldable pub place_auction_bid : Token → AuctionId → (amount : ℕ) → Action Auction
  unfolding use_guard
  place_auction_bid token i amount =
      use_guard e token λ user. do u ← user_id_of user; place_bid e u i amount

  unfoldable pub post_payment_expiry_decision :
      Token → AuctionId → (action : Decision) → Action DecisionReply
  unfolding use_guard
  post_payment_expiry_decision token i action =
      use_guard e token λ user. do u ← user_id_of user; handle_payment_expiry_decision e i u action

  -- modules/users/users.controller.ts
  unfoldable pub get_my_bid_stats : Token → Action BidStats
  unfolding use_guard
  get_my_bid_stats token =
      use_guard e token λ user. do u ← user_id_of user; get_bid_stats_for_user e u

  unfoldable pub get_by_id : AuctionId → Action (Option Auction)
  get_by_id i = gets λ w. e.auctions.find_one (λ a. a.id == i) w.auctions

module _ (e : Env) (number : Text → Option ℕ) where
  unfoldable pub get_my_created_auctions :
      Token → (page limit : Option Text) → (count : ℕ) → Action AuctionList
  unfolding use_guard
  get_my_created_auctions token page limit n = use_guard e token λ user. do
    u ← user_id_of user
    find_created_by_user e u (number_of number page) (number_of number limit) n

  unfoldable pub get_my_bidded_auctions :
      (summaries : UserId → List Bid → List BidSummary)
      → (winners : AuctionId → List Bid → Option UserId) → Token
      → (page limit : Option Text) → Action BiddedList
  unfolding use_guard
  get_my_bidded_auctions summaries winners token page limit = use_guard e token λ user. do
    u ← user_id_of user
    find_bidded_by_user e summaries winners u (number_of number page) (number_of number limit)

  unfoldable pub get_top_bidders_by_auction :
      Sorter IsAhead → AuctionId → (limit : Option Text) → Action TopBidders
  unfolding get_top_bidders_for_auction
  get_top_bidders_by_auction leading i limit =
      get_top_bidders_for_auction e leading i (number_of number limit)

  -- The lists that anybody may read: what is fetched where the cache does not answer.
  unfoldable pub get_all : ListQuery → (count : ℕ) → Action AuctionList
  unfolding fetch_all wants_meta
  get_all q n =
      fetch_all e (number_of number q.page) (number_of number q.limit) (wants_meta q.include_meta) n

  unfoldable pub get_active : ListQuery → (count : ℕ) → Action AuctionList
  unfolding fetch_active wants_meta
  get_active q n =
      fetch_active e (number_of number q.page) (number_of number q.limit)
        (wants_meta q.include_meta) n

  unfoldable pub get_by_category :
      Keys → (category : Option Text) → ListQuery → (count : ℕ) → Action AuctionList
  unfolding find_by_category wants_meta
  get_by_category k category q n =
      find_by_category e k (some (get_or_else category [])) (number_of number q.page)
        (number_of number q.limit) (wants_meta q.include_meta) n

module _ (k : Keys) (number : Text → Option ℕ) where
  -- The key under which the answer of a list may be cached.
  unfoldable pub list_key : Scope → (category : Option Text) → (ttl : ℕ) → ListQuery → Option Text
  unfolding response_key wants_meta is_compact
  list_key scope category ttl q =
      response_key k scope category ttl (number_of number q.page) (number_of number q.limit)
        (wants_meta q.include_meta) (is_compact q.compact)
