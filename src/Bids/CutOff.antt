-- ===== src/Bids/CutOff.antt =====
-- What a bid leaves behind that is cut off by a rejected call.
use ubuy_backend.Base.{ℕ, ◌≡◌, ◌⊎◌, inl, inr, true, false, some, arith, Bool-cases}
use ubuy_backend.Domain.{AuctionId, UserId, Auction}
use ubuy_backend.Platform.{Env}
use ubuy_backend.Platform.World.{World, Error, err, unavailable}
use ubuy_backend.Platform.Store.{set_bid, takes_bid, lookup, patched, bid_if_higher_lem}
use ubuy_backend.Bids.{commit_bid}

module _ (e : Env) where
  -- What a bid leaves that took the lead and was then cut off by a rejected call: the price and the
  -- highest bidder are the new ones, the bid may be recorded, and nobody is told.
  pub record IsCutOff (u : UserId) (i : AuctionId) (x : ℕ) (y : Error) (w w' : World) : Type 0 where
    pub auction : Auction
    pub found : lookup e i w.auctions ≡ some auction
    pub higher : takes_bid x auction ≡ true
    pub thrown : y ≡ unavailable
    pub auctions : w'.auctions ≡ patched e i (set_bid x u) w.auctions
    pub bids :
        (w'.bids ≡ w.bids)
        ⊎ (w'.bids
            ≡ e.bids.create
                (record { auction_id = i; user_id = u; amount = x; created_at = w.now })
                w.bids)
    pub users : w'.users ≡ w.users
    pub emitted : w'.emitted ≡ w.emitted
    pub notifications : w'.notifications ≡ w.notifications

  commit_bid-lost :
      (u : UserId) (i : AuctionId) (x : ℕ) (seen a : Auction) (w : World)
      → lookup e i w.auctions ≡ some a
      → takes_bid x a ≡ false
      → (commit_bid e u i x seen w).1 ≡ w
  unfolding commit_bid
  commit_bid-lost u i x seen a w found low = ground (arith, bid_if_higher_lem e i u x w.auctions)

  commit_bid-IsCutOff :
      (u : UserId) (i : AuctionId) (x : ℕ) (seen a : Auction) (w : World) (y : Error)
      → lookup e i w.auctions ≡ some a
      → takes_bid x a ≡ true
      → (commit_bid e u i x seen w).0 ≡ err y
      → IsCutOff u i x y w (commit_bid e u i x seen w).1
  unfolding commit_bid
  commit_bid-IsCutOff u i x seen a w y found high refused = record {
    auction = a;
    found = found;
    higher = high;
    thrown = ground (arith, bid_if_higher_lem e i u x w.auctions);
    auctions = ground (arith, bid_if_higher_lem e i u x w.auctions);
    bids = ground (arith, bid_if_higher_lem e i u x w.auctions);
    users = ground (arith, bid_if_higher_lem e i u x w.auctions);
    emitted = ground (arith, bid_if_higher_lem e i u x w.auctions);
    notifications = ground (arith, bid_if_higher_lem e i u x w.auctions);
  }

  pub commit_bid-err :
      (u : UserId) (i : AuctionId) (x : ℕ) (seen a : Auction) (w : World) (y : Error)
      → lookup e i w.auctions ≡ some a
      → (commit_bid e u i x seen w).0 ≡ err y
      → ((commit_bid e u i x seen w).1 ≡ w) ⊎ IsCutOff u i x y w (commit_bid e u i x seen w).1
  commit_bid-err u i x seen a w y found refused = elim (Bool-cases (takes_bid x a)) [
    | inl high ↦ inr (commit_bid-IsCutOff u i x seen a w y found high refused)
    | inr low ↦ inl (commit_bid-lost u i x seen a w found low)
  ]
