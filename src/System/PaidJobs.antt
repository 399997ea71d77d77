-- ===== src/System/PaidJobs.antt =====
-- Payment jobs that fire after the payment.
use ubuy_backend.Base.{◌≡◌, true, some, List, arith}
use ubuy_backend.Domain.{AuctionId, UserId, Auction, PaymentStatus, JobId}
use ubuy_backend.Platform.{Env}
use ubuy_backend.Platform.World.{World, ok}
use ubuy_backend.Platform.Store.{lookup}
use ubuy_backend.Changes.Invariant.{AllSound}
use ubuy_backend.Processor.{
  ExpiryAction, is_stale, remind, expire, handle_payment_reminder, handle_payment_expired, process,
}
use ubuy_backend.System.{Call, run_all}
use ubuy_backend.System.Settled.{run_all-settled}

module _ (e : Env) where
  stale_reminder :
      (i : AuctionId) (u : UserId) (a : Auction) (w : World)
      → lookup e i w.auctions ≡ some a
      → is_stale e u a ≡ true
      → handle_payment_reminder e i u w ≡ (ok tt, w)
  unfolding handle_payment_reminder remind
  stale_reminder i u a w found stale = rw (found, handle_payment_reminder, remind, stale)

  stale_expiry :
      (mode : ExpiryAction) (i : AuctionId) (u : UserId) (a : Auction) (w : World)
      → lookup e i w.auctions ≡ some a
      → is_stale e u a ≡ true
      → handle_payment_expired e mode i u w ≡ (ok tt, w)
  unfolding handle_payment_expired expire
  stale_expiry mode i u a w found stale = rw (found, handle_payment_expired, expire, stale)

  -- From a collection in which every auction with a winner has ended and every auction that is paid
  -- for has a winner: once an auction is paid for, then after any sequence of calls its reminder and
  -- expiry jobs, for any user and either expiry action, succeed and change nothing.
  pub paid_jobs_idle :
      (mode : ExpiryAction) (cs : List Call) (w : World) (i : AuctionId) (u : UserId) (a : Auction)
      → AllSound e w.auctions
      → lookup e i w.auctions ≡ some a
      → a.payment_status ≡ PaymentStatus.paid
      → (process e mode (JobId.payment_reminder i u) (run_all e cs w) ≡ (ok tt, run_all e cs w))
        × (process e mode (JobId.payment_expired i u) (run_all e cs w) ≡ (ok tt, run_all e cs w))
  unfolding process
  paid_jobs_idle mode cs w i u a sound found paid =
      let (b, stored, settled) = run_all-settled e cs w i a sound found paid in
      (
        stale_reminder i u b (run_all e cs w) stored (ground (arith, settled.paid)),
        stale_expiry mode i u b (run_all e cs w) stored (ground (arith, settled.paid)),
      )
