-- ===== src/Changes/Bidding.antt =====
-- Placing a bid performs allowed changes only, also when the bid is committed on a document that
-- was read long before.
use ubuy_backend.Base.{
  ℕ, ◌≡◌, refl, ◌⊎◌, ◌||◌, inl, inr, Bool, true, false, not, is_just, leb, Option, none, some,
  arith, Bool-cases, Option-cases,
}
use ubuy_backend.Domain.{AuctionId, UserId, Auction}
use ubuy_backend.Domain.Equality.{is_active}
use ubuy_backend.Platform.{Env}
use ubuy_backend.Platform.World.{World, Locks}
use ubuy_backend.Platform.Store.{
  set_bid, set_ended, takes_bid, lookup, bid_if_higher, bid_if_higher_lem, bid_outcome,
}
use ubuy_backend.Bids.{
  commit_bid, close_late, bid_in_time, bid_locked, with_lock, place_bid, lock_ttl_ms, latest_bidder,
}
use ubuy_backend.Changes.{bid, close, Changes, here}
use ubuy_backend.Changes.Methods.{Respects, no_change, one_update}

module _ (e : Env) where
  -- What `findOneAndUpdate` does to the collection is all that a commit does to it.
  commit_bid-auctions :
      (u : UserId) (i : AuctionId) (x : ℕ) (seen : Auction) (w : World)
      → (commit_bid e u i x seen w).1.auctions ≡ (bid_if_higher e i u x w.auctions).1
  unfolding commit_bid
  commit_bid-auctions u i x seen w = ground arith

  outcome-Changes :
      (u : UserId) (i : AuctionId) (x : ℕ) (c : _) → Changes e c (bid_if_higher e i u x c).1
  outcome-Changes u i x c = rw (bid_if_higher_lem e i u x c) (go (lookup e i c) refl)
    where
      go : (o : Option Auction) → lookup e i c ≡ o → Changes e c (bid_outcome e i u x c o).1
      go none found = here
      go (some a) found = elim (Bool-cases (takes_bid x a)) [
        | inl taken ↦
            rw taken (one_update e i (set_bid x u) a found (bid (ground arith) (ground arith)) refl)
        | inr refused ↦ rw refused here
      ]

  pub commit_bid-Respects :
      (u : UserId) (i : AuctionId) (x : ℕ) (seen : Auction) → Respects e (commit_bid e u i x seen)
  commit_bid-Respects u i x seen w =
      rw (commit_bid-auctions u i x seen w) (outcome-Changes u i x w.auctions)

  -- The three guards of `placeBid` on an auction that has not run out.
  abbrev refuses : UserId → AuctionId → ℕ → Auction → World → Bool
  refuses u i x a w =
      not (is_active a.status) || is_just (latest_bidder e i w.bids) u || leb x a.current_price

  accepted :
      (u : UserId) (i : AuctionId) (x : ℕ) (a : Auction) (w : World)
      → refuses u i x a w ≡ false
      → (bid_in_time e u i x a w).1.auctions ≡ (commit_bid e u i x a w).1.auctions
  unfolding bid_in_time
  accepted u i x a w fine = ground arith

  bid_in_time-Respects :
      (u : UserId) (i : AuctionId) (x : ℕ) (a : Auction) → Respects e (bid_in_time e u i x a)
  unfolding bid_in_time
  bid_in_time-Respects u i x a w = elim (Bool-cases (refuses u i x a w)) [
    | inl refused ↦ no_change e (ground arith)
    | inr fine ↦ rw (accepted u i x a w fine) (commit_bid-Respects u i x a w)
  ]

  close_late-Changes :
      (i : AuctionId) (a : Auction) (w : World)
      → lookup e i w.auctions ≡ some a
      → Changes e w.auctions (close_late e i a w).1.auctions
  unfolding close_late
  close_late-Changes i a w found = elim (Bool-cases (is_active a.status)) [
    | inl live ↦
        one_update e i (set_ended a.highest_bidder) a found (close (ground arith) refl)
          (ground arith)
    | inr over ↦ no_change e (ground arith)
  ]

  -- The method on the document that it has read: refused, closed or bid for.
  bid_locked-cases :
      (u : UserId) (i : AuctionId) (x : ℕ) (a : Auction) (w : World)
      → lookup e i w.auctions ≡ some a
      → ((bid_locked e u i x w).1.auctions ≡ w.auctions)
        ⊎ ((bid_locked e u i x w).1.auctions ≡ (close_late e i a w).1.auctions)
        ⊎ ((bid_locked e u i x w).1.auctions ≡ (bid_in_time e u i x a w).1.auctions)
  unfolding bid_locked
  bid_locked-cases u i x a w found = ground arith

  bid_locked-Respects : (u : UserId) (i : AuctionId) (x : ℕ) → Respects e (bid_locked e u i x)
  unfolding bid_locked
  bid_locked-Respects u i x w = elim (Option-cases (lookup e i w.auctions)) [
    | inl missing ↦ no_change e (ground arith)
    | inr (a, found) ↦ elim (bid_locked-cases u i x a w found) [
      | inl same ↦ no_change e same
      | inr (inl late) ↦ rw late (close_late-Changes i a w found)
      | inr (inr in_time) ↦ rw in_time (bid_in_time-Respects u i x a w)
    ]
  ]

  with_lock-Changes :
      (u : UserId) (i : AuctionId) (x : ℕ) (o : Option Locks)
      → Respects e (with_lock e i (bid_locked e u i x) o)
  unfolding with_lock
  with_lock-Changes u i x none w = here
  with_lock-Changes u i x (some l) w = bid_locked-Respects u i x (record w { locks = l })

  pub place_bid-Respects : (u : UserId) (i : AuctionId) (x : ℕ) → Respects e (place_bid e u i x)
  unfolding place_bid
  place_bid-Respects u i x w = elim (Bool-cases (e.is_valid_id i)) [
    | inl valid ↦
        rw (valid_bid valid)
          (with_lock-Changes u i x (e.redis.set_nx w.now i lock_ttl_ms w.locks) w)
    | inr invalid ↦ no_change e (ground arith)
  ]
    where
      valid_bid :
          e.is_valid_id i ≡ true
          → (place_bid e u i x w).1.auctions
            ≡ (with_lock e i
                (bid_locked e u i x)
                (e.redis.set_nx w.now i lock_ttl_ms w.locks)
                w).1.auctions
      valid_bid valid = rw (valid, place_bid)
