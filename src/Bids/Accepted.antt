-- ===== src/Bids/Accepted.antt =====
-- What an accepted bid has established and what it leaves behind.
use ubuy_backend.Base.{
  ℕ, ◌≡◌, ap, ◌≢◌, ◌<◌, inl, inr, true, false, Option, none, some, arith, Bool-cases, Option-cases,
}
use ubuy_backend.Domain.{AuctionId, UserId, Auction, Status}
use ubuy_backend.Platform.{Env}
use ubuy_backend.Platform.World.{
  World, Locks, Result, ok, err, auction_not_found, invalid_auction_id,
}
use ubuy_backend.Platform.Store.{
  set_bid, apply, takes_bid, lookup, patched, bid_if_higher_lem, lookup-patched,
}
use ubuy_backend.Bids.{
  commit_bid, close_late, bid_in_time, bid_locked, with_lock, place_bid, lock_ttl_ms, latest_bidder,
  release,
}

module _ (e : Env) where
  -- What a bid of `x` by `u` on `i` needs in `w`, and what it makes of the world.
  pub record IsAccepted (u : UserId) (i : AuctionId) (x : ℕ) (w w' : World) (answer : Auction)
      : Type 0 where
    pub before : Auction
    pub found : lookup e i w.auctions ≡ some before
    pub live : before.status ≡ Status.active
    pub in_time : w.now < before.end_time
    pub foreign : before.created_by ≢ u
    pub higher : before.current_price < x
    pub not_consecutive : latest_bidder e i w.bids ≢ some u
    pub answered : answer ≡ apply (set_bid x u) before
    pub stored : lookup e i w'.auctions ≡ some (apply (set_bid x u) before)
    pub recorded :
        w'.bids
        ≡ e.bids.create
            (record { auction_id = i; user_id = u; amount = x; created_at = w.now })
            w.bids

  commit_bid-ok :
      (u : UserId) (i : AuctionId) (x : ℕ) (seen a : Auction) (w : World) (answer : Auction)
      → lookup e i w.auctions ≡ some a
      → (commit_bid e u i x seen w).0 ≡ ok answer
      → (takes_bid x a ≡ true)
        × (answer ≡ apply (set_bid x u) a)
        × ((commit_bid e u i x seen w).1.auctions ≡ patched e i (set_bid x u) w.auctions)
        × ((commit_bid e u i x seen w).1.bids
            ≡ e.bids.create
                (record { auction_id = i; user_id = u; amount = x; created_at = w.now })
                w.bids)
  unfolding commit_bid
  commit_bid-ok u i x seen a w answer found okay =
      ground (arith, bid_if_higher_lem e i u x w.auctions)

  -- The method on the document that was read: an answer means that every guard was passed and that
  -- the bid was committed.
  bid_locked-ok :
      (u : UserId) (i : AuctionId) (x : ℕ) (a : Auction) (w : World) (answer : Auction)
      → lookup e i w.auctions ≡ some a
      → (bid_locked e u i x w).0 ≡ ok answer
      → (a.status ≡ Status.active)
        × (w.now < a.end_time)
        × (a.created_by ≢ u)
        × (latest_bidder e i w.bids ≢ some u)
        × (bid_locked e u i x w ≡ commit_bid e u i x a w)
  unfolding bid_locked close_late bid_in_time
  bid_locked-ok u i x a w answer found okay = ground arith

  pub bid_locked_missing :
      (u : UserId) (i : AuctionId) (x : ℕ) (w : World)
      → lookup e i w.auctions ≡ none
      → bid_locked e u i x w ≡ (err auction_not_found, w)
  unfolding bid_locked
  bid_locked_missing u i x w missing = rw (missing, bid_locked)

  bid_locked-IsAccepted :
      (u : UserId) (i : AuctionId) (x : ℕ) (w : World) (answer : Auction)
      → (bid_locked e u i x w).0 ≡ ok answer
      → IsAccepted u i x w (bid_locked e u i x w).1 answer
  bid_locked-IsAccepted u i x w answer okay = elim (Option-cases (lookup e i w.auctions)) [
    | inl missing ↦
        cc (ap (λ (r : Result Auction × World). r.0) (bid_locked_missing u i x w missing))
    | inr (a, found) ↦
        let (live, in_time, foreign, not_consecutive, same) =
          bid_locked-ok u i x a w answer found okay in
        let (taken, answered, stored, recorded) =
          commit_bid-ok u i x a a w answer found (rw same at okay) in
        record {
          before = a;
          found = found;
          live = live;
          in_time = in_time;
          foreign = foreign;
          higher = ground arith;
          not_consecutive = not_consecutive;
          answered = answered;
          stored =
              rw (same, stored) (ground (arith, lookup-patched e i w.auctions i (set_bid x u)));
          recorded = rw same recorded;
        }
  ]

  -- Taking the lock before and releasing it after changes nothing that the acceptance speaks of.
  through_lock :
      (u : UserId) (i : AuctionId) (x : ℕ) (l : Locks) (w w' : World) (answer : Auction)
      → IsAccepted u i x (record w { locks = l }) w' answer
      → IsAccepted u i x w (release e i w') answer
  unfolding release
  through_lock u i x l w w' answer h = record {
    before = h.before;
    found = h.found;
    live = h.live;
    in_time = h.in_time;
    foreign = h.foreign;
    higher = h.higher;
    not_consecutive = h.not_consecutive;
    answered = h.answered;
    stored = h.stored;
    recorded = h.recorded;
  }

  with_lock-IsAccepted :
      (u : UserId) (i : AuctionId) (x : ℕ) (o : Option Locks) (w : World) (answer : Auction)
      → (with_lock e i (bid_locked e u i x) o w).0 ≡ ok answer
      → IsAccepted u i x w (with_lock e i (bid_locked e u i x) o w).1 answer
  unfolding with_lock
  with_lock-IsAccepted u i x none w answer okay = cc
  with_lock-IsAccepted u i x (some l) w answer okay =
      through_lock u i x l w _ answer
        (bid_locked-IsAccepted u i x (record w { locks = l }) answer okay)

  pub place_bid_valid :
      (u : UserId) (i : AuctionId) (x : ℕ) (w : World)
      → e.is_valid_id i ≡ true
      → place_bid e u i x w
        ≡ with_lock e i (bid_locked e u i x) (e.redis.set_nx w.now i lock_ttl_ms w.locks) w
  unfolding place_bid
  place_bid_valid u i x w valid = rw valid

  pub place_bid_invalid :
      (u : UserId) (i : AuctionId) (x : ℕ) (w : World)
      → e.is_valid_id i ≡ false
      → place_bid e u i x w ≡ (err invalid_auction_id, w)
  unfolding place_bid
  place_bid_invalid u i x w invalid = rw invalid

  -- If `placeBid` answers an auction, the auction was active and not past its end, belongs to another
  -- user, had a lower price, and its latest bid was not by the bidder; the stored auction and the
  -- answer are that document with the bid as price and the bidder as highest bidder, and the bid is
  -- recorded.
  pub place_bid-IsAccepted :
      (u : UserId) (i : AuctionId) (x : ℕ) (w : World) (answer : Auction)
      → (place_bid e u i x w).0 ≡ ok answer
      → IsAccepted u i x w (place_bid e u i x w).1 answer
  place_bid-IsAccepted u i x w answer okay = elim (Bool-cases (e.is_valid_id i)) [
    | inl valid ↦
        rw (place_bid_valid u i x w valid)
          (with_lock-IsAccepted u i x _ w answer (rw (place_bid_valid u i x w valid) at okay))
    | inr invalid ↦ cc (place_bid_invalid u i x w invalid)
  ]
