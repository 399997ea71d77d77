-- ===== src/Auctions/Deleted.antt =====
-- Deleting an auction.
use ubuy_backend.Base.{
  ◌≡◌, ◌==◌, true, false, none, some, inl, inr, Option-cases, arith, count, count-reject,
}
use ubuy_backend.Domain.{AuctionId, UserId, Auction, PaymentStatus}
use ubuy_backend.Platform.{Env}
use ubuy_backend.Platform.World.{World, is_ok}
use ubuy_backend.Platform.Store.{lookup, deleted}
use ubuy_backend.Auctions.Lifecycle.{delete_auction, clear_jobs_of}

module _ (e : Env) where
  delete_auction-writes :
      (i : AuctionId) (actor : UserId) (a : Auction) (w : World)
      → lookup e i w.auctions ≡ some a
      → is_ok (delete_auction e i actor w).0 ≡ true
      → (a.created_by ≡ actor)
        × (a.payment_status ≡ PaymentStatus.active)
        × ((delete_auction e i actor w).1.auctions ≡ deleted e i w.auctions)
        × ((delete_auction e i actor w).1.bids ≡ e.bids.delete_many (λ b. b.auction_id == i) w.bids)
        × ((delete_auction e i actor w).1.wishlists
            ≡ e.wishlists.delete_many (λ x. x.auction_id == i) w.wishlists)
  unfolding delete_auction clear_jobs_of
  delete_auction-writes i actor a w found okay = ground arith

  delete_auction-missing :
      (i : AuctionId) (actor : UserId) (w : World)
      → lookup e i w.auctions ≡ none
      → is_ok (delete_auction e i actor w).0 ≡ false
  unfolding delete_auction clear_jobs_of
  delete_auction-missing i actor w missing = ground arith

  -- If `deleteAuction` answers, the auction was stored, unpaid and created by the user, the document
  -- with its id is deleted, and no bid on it and no wishlist entry for it is left.
  pub delete_auction-clears :
      (i : AuctionId) (actor : UserId) (w : World)
      → is_ok (delete_auction e i actor w).0 ≡ true
      → (a : Auction) × (lookup e i w.auctions ≡ some a)
        × (a.created_by ≡ actor)
        × (a.payment_status ≡ PaymentStatus.active)
        × ((delete_auction e i actor w).1.auctions ≡ deleted e i w.auctions)
        × (count (λ b. b.auction_id == i) (delete_auction e i actor w).1.bids ≡ 0)
        × (count (λ x. x.auction_id == i) (delete_auction e i actor w).1.wishlists ≡ 0)
  delete_auction-clears i actor w okay = elim (Option-cases (lookup e i w.auctions)) [
    | inl missing ↦ cc (delete_auction-missing i actor w missing)
    | inr (a, found) ↦
        let (own, unpaid, gone, no_bids, no_entries) =
          delete_auction-writes i actor a w found okay in
        (
          a,
          found,
          own,
          unpaid,
          gone,
          rw (no_bids, e.bids.delete_many_lem) (count-reject (λ b. b.auction_id == i) w.bids),
          rw (no_entries, e.wishlists.delete_many_lem)
              (count-reject (λ x. x.auction_id == i) w.wishlists),
        )
  ]
