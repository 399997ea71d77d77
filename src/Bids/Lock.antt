-- ===== src/Bids/Lock.antt =====
-- The lock of an auction.
use ubuy_backend.Base.{ℕ, ◌≡◌, inl, inr, true, false, none, some, arith, Option-cases}
use ubuy_backend.Domain.{AuctionId, UserId, Auction}
use ubuy_backend.Platform.{Env}
use ubuy_backend.Platform.World.{World, Locks, Action, err, lock_taken}
use ubuy_backend.Bids.{bid_locked, with_lock, place_bid, lock_ttl_ms}
use ubuy_backend.Bids.Accepted.{place_bid_valid}

module _ (e : Env) where
  with_lock-free :
      (i : AuctionId) (body : Action Auction) (l : Locks) (w : World) (t : ℕ)
      → e.redis.exists t i (with_lock e i body (some l) w).1.locks ≡ false
  unfolding with_lock
  with_lock-free i body l w t =
      ground (arith, e.redis.exists-del t i i (body (record w { locks = l })).1.locks)

  -- For a valid auction id: while the lock of the auction is held, `placeBid` is refused and
  -- changes nothing. Otherwise the lock is free when it returns, whether it answers or throws, as
  -- seen at any time.
  pub place_bid-lock :
      (u : UserId) (i : AuctionId) (x t : ℕ) (w : World)
      → e.is_valid_id i ≡ true
      → (e.redis.exists w.now i w.locks ≡ true → place_bid e u i x w ≡ (err lock_taken, w))
        × (e.redis.exists w.now i w.locks ≡ false
            → e.redis.exists t i (place_bid e u i x w).1.locks ≡ false)
  unfolding with_lock
  place_bid-lock u i x t w valid =
      elim (Option-cases (e.redis.set_nx w.now i lock_ttl_ms w.locks)) [
        | inl null ↦ (
          λ held. rw (place_bid_valid e u i x w valid, null),
          λ free. absurd (contradiction null free),
        )
        | inr (l, set) ↦ (
          λ held. absurd (contradiction_set l set held),
          λ free.
              rw (place_bid_valid e u i x w valid, set)
                (with_lock-free i (bid_locked e u i x) l w t),
        )
      ]
    where
      contradiction :
          e.redis.set_nx w.now i lock_ttl_ms w.locks ≡ none
          → e.redis.exists w.now i w.locks ≡ false
          → ⊥
      contradiction null free = ground (arith, e.redis.set_nx-held w.now i lock_ttl_ms w.locks)

      contradiction_set :
          (l : Locks)
          → e.redis.set_nx w.now i lock_ttl_ms w.locks ≡ some l
          → e.redis.exists w.now i w.locks ≡ true
          → ⊥
      contradiction_set l set held = ground (arith, e.redis.set_nx-held w.now i lock_ttl_ms w.locks)
