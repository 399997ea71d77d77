-- ===== src/Bids.antt =====
-- modules/bids/bids.service.ts: `BidsService.placeBid`.
pub mod Accepted
pub mod CutOff
pub mod Lock
pub mod Refused
use ubuy_backend.Base.{
  ℕ, not, Option, none, some, List, [], ◌∷◌, ◌++◌, ⊤, ◌==◌, leb, keep, is_just, if◌then◌else◌,
}
use ubuy_backend.Domain.{
  AuctionId, UserId, Auction, Bid, User, NotificationType, KeyKind, key, Emit, SocketEvent,
}
use ubuy_backend.Domain.Equality.{is_active}
use ubuy_backend.Platform.{Env}
use ubuy_backend.Platform.Store.{set_ended, bid_if_higher}
use ubuy_backend.Platform.Calls.{guarded, find_auction, save_auction}
use ubuy_backend.Platform.World.{
  World, Locks, Action, ok, auction_not_found, lock_taken, own_auction, auction_has_ended,
  auction_not_active, consecutive_bids, bid_too_low, outbid_meanwhile, invalid_auction_id, gets,
  pure, throw, or_throw, throw_if, skip, attempt, finally, modify, emit, ◌>>=◌, ◌>>◌,
}
use ubuy_backend.Auctions.Push.{push}
use ubuy_backend.Auctions.Lifecycle.{contains}

-- The `PX` of the lock, in milliseconds.
abbrev pub lock_ttl_ms : ℕ
lock_ttl_ms = 3000

-- `$addToSet: { biddedAuctions: auctionId }`
abbrev pub add_bidded : AuctionId → User → User
add_bidded i u =
    if contains u.bidded_auctions i
    then u
    else record u { bidded_auctions = u.bidded_auctions ++ i ∷ [] }

abbrev pub bidder_of : List Bid → Option UserId
bidder_of [] = none
bidder_of (b ∷ bids) = some b.user_id

module _ (e : Env) where
  -- `bidModel.findOne({ auctionId }).sort({ createdAt: -1 })`, its `userId`.
  unfoldable pub latest_bidder : AuctionId → List Bid → Option UserId
  latest_bidder i c = bidder_of (e.newest.sort (keep (λ b. b.auction_id == i) c))

  -- `bidModel.create` and `userModel.updateOne`: the document of a bid that has taken the lead, and
  -- the bidder's list. Either call may be rejected, which nothing undoes.
  unfoldable pub record_bid : UserId → AuctionId → ℕ → Action ⊤
  unfolding guarded
  record_bid u i amount = do
    guarded e
    modify λ w. record w {
      bids =
          e.bids.create
            (record { auction_id = i; user_id = u; amount = amount; created_at = w.now }) w.bids;
    }
    guarded e
    modify λ w. record w { users = e.users.update_one (λ x. x.id == u) (add_bidded i) w.users }

  -- `if (previousHighestBidder && previousHighestBidder !== userId) { … }`
  unfoldable pub tell_outbid : UserId → AuctionId → ℕ → ℕ → Option UserId → Action ⊤
  unfolding push
  tell_outbid u i amount previous_price none = skip
  tell_outbid u i amount previous_price (some previous) = if previous == u then skip else (do
    emit (Emit.to_user previous (SocketEvent.out_bid previous_price amount u))
    attempt (
        push e (record {
          user_id = previous;
          type = NotificationType.outbid;
          title = "You were outbid";
          dedupe_key = some (key KeyKind.out_bid i previous amount);
        })))

  -- `findOneAndUpdate` with its filter on the status and the price.
  unfoldable pub take_lead : UserId → AuctionId → ℕ → Action (Option Auction)
  take_lead u i amount w =
      let (updated, c) = bid_if_higher e i u amount w.auctions in
      (ok updated, record w { auctions = c })

  -- From `findOneAndUpdate` on; `auction` is the document that was read before, which another
  -- process may have changed since.
  unfoldable pub commit_bid : UserId → AuctionId → ℕ → Auction → Action Auction
  unfolding take_lead record_bid tell_outbid
  commit_bid u i amount auction = do
    updated ← or_throw (← take_lead u i amount) outbid_meanwhile
    record_bid u i amount
    emit (Emit.to_auction i (SocketEvent.new_bid amount u))
    tell_outbid u i amount auction.current_price auction.highest_bidder
    pure updated

  -- The bid comes after the end time.
  unfoldable pub close_late : AuctionId → Auction → Action Auction
  close_late i auction = do
    if is_active auction.status then save_auction e i (set_ended auction.highest_bidder) else skip
    throw auction_has_ended

  unfoldable pub bid_in_time : UserId → AuctionId → ℕ → Auction → Action Auction
  unfolding latest_bidder
  bid_in_time u i amount auction = do
    throw_if (not (is_active auction.status)) auction_not_active
    latest ← gets λ w. latest_bidder i w.bids
    throw_if (is_just latest u) consecutive_bids
    throw_if (leb amount auction.current_price) bid_too_low
    commit_bid u i amount auction

  -- The `try` block of `placeBid`.
  unfoldable pub bid_locked : UserId → AuctionId → ℕ → Action Auction
  bid_locked u i amount = do
    auction ← or_throw (← find_auction e i) auction_not_found
    throw_if (auction.created_by == u) own_auction
    now ← gets World.now
    if leb auction.end_time now then close_late i auction else bid_in_time u i amount auction

  unfoldable pub release : AuctionId → World → World
  release i w = record w { locks = e.redis.del i w.locks }

  -- With the reply of `SET … NX` in hand.
  unfoldable pub with_lock : AuctionId → Action Auction → Option Locks → Action Auction
  unfolding release
  with_lock i body none w = throw lock_taken w
  with_lock i body (some l) w = finally body (release i) (record w { locks = l })

  unfoldable pub place_bid : UserId → AuctionId → ℕ → Action Auction
  unfolding with_lock
  place_bid u i amount = do
    throw_if (not (e.is_valid_id i)) invalid_auction_id
    reply ← gets λ w. e.redis.set_nx w.now i lock_ttl_ms w.locks
    with_lock i (bid_locked u i amount) reply
