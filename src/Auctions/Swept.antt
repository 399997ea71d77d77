-- ===== src/Auctions/Swept.antt =====
-- The sweep of overdue auctions and the end of an auction.
use ubuy_backend.Base.{◌≡◌, ◌≤◌, true, none, some, List, arith}
use ubuy_backend.Domain.{AuctionId, UserId, Auction, Status}
use ubuy_backend.Platform.{Env}
use ubuy_backend.Platform.World.{World, ok, err, not_current_winner}
use ubuy_backend.Platform.Store.{lookup, mark_ended, lookup-swept}
use ubuy_backend.Auctions.Lifecycle.{contains, sweep, end_auction}
use ubuy_backend.Auctions.Payment.{confirm_winner_payment}

module _ (e : Env) where
  swept_lookup :
      (i : AuctionId) (ids : List AuctionId) (a : Auction) (w : World)
      → lookup e i w.auctions ≡ some a
      → contains ids a.id ≡ true
      → a.status ≡ Status.active
      → a.end_time ≤ w.now
      → lookup e i (sweep e ids w).1.auctions ≡ some (mark_ended a)
  unfolding sweep
  swept_lookup i ids a w found listed live late =
      ground (arith, lookup-swept e i w.auctions (λ b. contains ids b.id) w.now)

  ended_unsold :
      (i : AuctionId) (a : Auction) (w : World)
      → lookup e i w.auctions ≡ some (mark_ended a)
      → end_auction e i w ≡ (ok (mark_ended a), w)
  unfolding end_auction
  ended_unsold i a w found = rw (found, end_auction)

  confirm_refused :
      (i : AuctionId) (u : UserId) (a : Auction) (w : World)
      → lookup e i w.auctions ≡ some (mark_ended a)
      → a.winner ≡ none
      → (confirm_winner_payment e i u w).0 ≡ err not_current_winner
  unfolding confirm_winner_payment
  confirm_refused i u a w found no_winner = ground arith

  -- When the sweep of a user's auctions reaches an active auction without a winner past its end,
  -- the auction is ended with no winner; `endAuction` then changes nothing, and any user who
  -- confirms a payment after it, the highest bidder included, is refused.
  pub sweep_loses_winner :
      (i : AuctionId) (ids : List AuctionId) (a : Auction) (w : World) (u : UserId)
      → lookup e i w.auctions ≡ some a
      → contains ids a.id ≡ true
      → a.status ≡ Status.active
      → a.winner ≡ none
      → a.end_time ≤ w.now
      → (end_auction e i (sweep e ids w).1 ≡ (ok (mark_ended a), (sweep e ids w).1))
        × ((confirm_winner_payment e i u (end_auction e i (sweep e ids w).1).1).0
            ≡ err not_current_winner)
  sweep_loses_winner i ids a w u found listed live no_winner late =
      let there = swept_lookup i ids a w found listed live late in
      let idle = ended_unsold i a (sweep e ids w).1 there in
      (idle, rw idle (confirm_refused i u a (sweep e ids w).1 there no_winner))
