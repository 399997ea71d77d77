-- ===== src/Bids/Refused.antt =====
-- What a refused bid leaves behind.
use ubuy_backend.Base.{
  ℕ, ◌≡◌, refl, ◌⊎◌, ◌==◌, ◌≤◌, inl, inr, not, Option, none, some, arith, Bool-cases, leb, is_just,
  ap, ◌∙◌, Option-cases, if◌then◌else◌,
}
use ubuy_backend.Domain.{AuctionId, UserId, Auction, Status}
use ubuy_backend.Domain.Equality.{is_active}
use ubuy_backend.Platform.{Env}
use ubuy_backend.Platform.World.{
  World, Locks, Action, Error, Result, err, auction_not_active, consecutive_bids, bid_too_low,
  own_auction, gets, throw_if, throw_if-cases, ◌>>=◌, ◌>>◌,
}
use ubuy_backend.Platform.Store.{set_ended, lookup, patched}
use ubuy_backend.Bids.{
  commit_bid, close_late, bid_in_time, bid_locked, with_lock, latest_bidder, release, place_bid,
}
use ubuy_backend.Bids.CutOff.{IsCutOff, commit_bid-err}
use ubuy_backend.Bids.Accepted.{place_bid_valid, place_bid_invalid, bid_locked_missing}

module _ (e : Env) where
  -- What a refused bid may have written: nothing, or the end of an auction whose time had run out.
  pub record IsRefused (i : AuctionId) (w w' : World) : Type 0 where
    pub bids : w'.bids ≡ w.bids
    pub users : w'.users ≡ w.users
    pub emitted : w'.emitted ≡ w.emitted
    pub notifications : w'.notifications ≡ w.notifications
    pub auctions :
        (w'.auctions ≡ w.auctions)
        ⊎ ((a : Auction) × (lookup e i w.auctions ≡ some a)
            × (a.status ≡ Status.active)
            × (a.end_time ≤ w.now)
            × (w'.auctions ≡ patched e i (set_ended a.highest_bidder) w.auctions))

  untouched : (i : AuctionId) (w : World) → IsRefused i w w
  untouched i w = record {
    bids = refl;
    users = refl;
    emitted = refl;
    notifications = refl;
    auctions = inl refl;
  }

  -- The rest of the method below each guard.
  abbrev after_latest : UserId → AuctionId → ℕ → Auction → Action Auction
  after_latest u i x a = throw_if (leb x a.current_price) bid_too_low >> commit_bid e u i x a

  abbrev after_status : UserId → AuctionId → ℕ → Auction → Action Auction
  after_status u i x a = do
    latest ← gets λ w. latest_bidder e i w.bids
    throw_if (is_just latest u) consecutive_bids
    after_latest u i x a

  -- The guards of a bid in time let the commit run, or leave the world as it is.
  bid_in_time-cases :
      (u : UserId) (i : AuctionId) (x : ℕ) (a : Auction) (w : World)
      → (bid_in_time e u i x a w ≡ commit_bid e u i x a w) ⊎ ((bid_in_time e u i x a w).1 ≡ w)
  unfolding bid_in_time
  bid_in_time-cases u i x a w =
      elim (throw_if-cases (not (is_active a.status)) auction_not_active (after_status u i x a) w) [
        | inr thrown ↦ inr (ap (λ r. r.1) thrown)
        | inl (_, passed) ↦
            elim (throw_if-cases (is_just (latest_bidder e i w.bids) u) consecutive_bids
              (after_latest u i x a) w) [
                | inr thrown ↦ inr (ap (λ r. r.1) (passed ∙ thrown))
                | inl (_, still) ↦
                    elim (throw_if-cases (leb x a.current_price) bid_too_low (commit_bid e u i x a)
                      w) [
                        | inr thrown ↦ inr (ap (λ r. r.1) (passed ∙ still ∙ thrown))
                        | inl (_, last) ↦ inl (passed ∙ still ∙ last)
                      ]
              ]
      ]

  bid_in_time-err :
      (u : UserId) (i : AuctionId) (x : ℕ) (a : Auction) (w : World) (y : Error)
      → lookup e i w.auctions ≡ some a
      → (bid_in_time e u i x a w).0 ≡ err y
      → ((bid_in_time e u i x a w).1 ≡ w) ⊎ IsCutOff e u i x y w (bid_in_time e u i x a w).1
  bid_in_time-err u i x a w y found refused = elim (bid_in_time-cases u i x a w) [
    | inl same ↦ rw same (commit_bid-err e u i x a a w y found (rw same at refused))
    | inr unchanged ↦ inl unchanged
  ]

  -- The world with the auction closed, and when that happens.
  abbrev closed : AuctionId → Auction → World → World
  closed i a w = record w { auctions = patched e i (set_ended a.highest_bidder) w.auctions }

  close_late-cases :
      (i : AuctionId) (a : Auction) (w : World)
      → ((close_late e i a w).1 ≡ w)
        ⊎ ((a.status ≡ Status.active) × ((close_late e i a w).1 ≡ closed i a w))
  unfolding close_late
  close_late-cases i a w = elim (Bool-cases (is_active a.status)) [
    | inl live ↦ inr (ground arith, rw live)
    | inr over ↦ inl (rw over)
  ]

  close_late-IsRefused :
      (i : AuctionId) (a : Auction) (w : World)
      → lookup e i w.auctions ≡ some a
      → a.end_time ≤ w.now
      → IsRefused i w (close_late e i a w).1
  close_late-IsRefused i a w found late = elim (close_late-cases i a w) [
    | inl same ↦ rw same (untouched i w)
    | inr (live, eq) ↦ rw eq (record {
      bids = refl;
      users = refl;
      emitted = refl;
      notifications = refl;
      auctions = inr (a, found, live, late, refl);
    })
  ]

  abbrev after_owner : UserId → AuctionId → ℕ → Auction → Action Auction
  after_owner u i x a = do
    now ← gets World.now
    if leb a.end_time now then close_late e i a else bid_in_time e u i x a

  bid_locked_found :
      (u : UserId) (i : AuctionId) (x : ℕ) (a : Auction) (w : World)
      → lookup e i w.auctions ≡ some a
      → bid_locked e u i x w ≡ (throw_if (a.created_by == u) own_auction >> after_owner u i x a) w
  unfolding bid_locked
  bid_locked_found u i x a w found = rw (found, bid_locked)

  bid_locked-cases :
      (u : UserId) (i : AuctionId) (x : ℕ) (a : Auction) (w : World)
      → lookup e i w.auctions ≡ some a
      → ((bid_locked e u i x w).1 ≡ w)
        ⊎ ((a.end_time ≤ w.now) × (bid_locked e u i x w ≡ close_late e i a w))
        ⊎ (bid_locked e u i x w ≡ bid_in_time e u i x a w)
  bid_locked-cases u i x a w found =
      elim (throw_if-cases (a.created_by == u) own_auction (after_owner u i x a) w) [
        | inr thrown ↦ inl (ap (λ (r : Result Auction × World). r.1) (start ∙ thrown))
        | inl (_, passed) ↦ elim (Bool-cases (leb a.end_time w.now)) [
          | inl late ↦ inr (inl (ground arith, start ∙ passed ∙ rw late))
          | inr in_time ↦ inr (inr (start ∙ passed ∙ rw in_time))
        ]
      ]
    where
      start :
          bid_locked e u i x w ≡ (throw_if (a.created_by == u) own_auction >> after_owner u i x a) w
      start = bid_locked_found u i x a w found

  bid_locked-IsRefused :
      (u : UserId) (i : AuctionId) (x : ℕ) (a : Auction) (w : World) (y : Error)
      → lookup e i w.auctions ≡ some a
      → (bid_locked e u i x w).0 ≡ err y
      → IsRefused i w (bid_locked e u i x w).1 ⊎ IsCutOff e u i x y w (bid_locked e u i x w).1
  bid_locked-IsRefused u i x a w y found refused = elim (bid_locked-cases u i x a w found) [
    | inl same ↦ inl (rw same (untouched i w))
    | inr (inl (late, eq)) ↦ inl (rw eq (close_late-IsRefused i a w found late))
    | inr (inr eq) ↦ elim (bid_in_time-err u i x a w y found (rw eq at refused)) [
      | inl same ↦ inl (rw (eq, same) (untouched i w))
      | inr cut ↦ inr (rw eq cut)
    ]
  ]

  -- Taking the lock before and releasing it after changes nothing that these speak of.
  through_lock :
      (u : UserId) (i : AuctionId) (x : ℕ) (y : Error) (l : Locks) (w w' : World)
      → IsRefused i (record w { locks = l }) w' ⊎ IsCutOff e u i x y (record w { locks = l }) w'
      → IsRefused i w (release e i w') ⊎ IsCutOff e u i x y w (release e i w')
  unfolding release
  through_lock u i x y l w w' (inl h) = inl (record {
    bids = h.bids;
    users = h.users;
    emitted = h.emitted;
    notifications = h.notifications;
    auctions = h.auctions;
  })
  through_lock u i x y l w w' (inr h) = inr (record {
    auction = h.auction;
    found = h.found;
    higher = h.higher;
    thrown = h.thrown;
    auctions = h.auctions;
    bids = h.bids;
    users = h.users;
    emitted = h.emitted;
    notifications = h.notifications;
  })

  with_lock-IsRefused :
      (u : UserId) (i : AuctionId) (x : ℕ) (o : Option Locks) (w : World) (y : Error)
      → (with_lock e i (bid_locked e u i x) o w).0 ≡ err y
      → IsRefused i w (with_lock e i (bid_locked e u i x) o w).1
        ⊎ IsCutOff e u i x y w (with_lock e i (bid_locked e u i x) o w).1
  unfolding with_lock
  with_lock-IsRefused u i x none w y refused = inl (untouched i w)
  with_lock-IsRefused u i x (some l) w y refused =
      through_lock u i x y l w (bid_locked e u i x (record w { locks = l })).1
        (elim (Option-cases (lookup e i w.auctions)) [
          | inl missing ↦ inl (
              rw (bid_locked_missing e u i x (record w { locks = l }) missing)
                (untouched i (record w { locks = l })))
          | inr (a, found) ↦ bid_locked-IsRefused u i x a (record w { locks = l }) y found refused
        ])

  -- If `placeBid` throws, then either no bid is recorded, no user, notification or socket event is
  -- written, and the auctions are as they were, unless the auction was active past its end time: then
  -- it has been ended with its highest bidder as winner, and nothing else. Or the bid had taken the
  -- lead when the call that records it, or the one that adds to the bidder's list, was rejected: then
  -- the auction keeps the bid as its price and the bidder as its highest bidder, the bid is recorded
  -- or not, and no user, notification or socket event is written. The calls that read, that close the
  -- auction and that take or release the lock are taken not to be rejected.
  pub place_bid-IsRefused :
      (u : UserId) (i : AuctionId) (x : ℕ) (w : World) (y : Error)
      → (place_bid e u i x w).0 ≡ err y
      → IsRefused i w (place_bid e u i x w).1 ⊎ IsCutOff e u i x y w (place_bid e u i x w).1
  place_bid-IsRefused u i x w y refused = elim (Bool-cases (e.is_valid_id i)) [
    | inl valid ↦
        rw (place_bid_valid e u i x w valid)
          (with_lock-IsRefused u i x _ w y (rw (place_bid_valid e u i x w valid) at refused))
    | inr invalid ↦ inl (rw (place_bid_invalid e u i x w invalid) (untouched i w))
  ]
