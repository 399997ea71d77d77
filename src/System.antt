-- ===== src/System.antt =====
-- The services together: any sequence of method calls, worker jobs and clock ticks, in any order and
-- with any arguments. A bid may also be committed on a document that was read at any earlier time,
-- as happens when two processes serve the same auction.
pub mod Settled
pub mod PaidJobs
use ubuy_backend.Base.{ℕ, Option, List, [], ◌∷◌}
use ubuy_backend.Domain.{AuctionId, UserId, Auction, Bid, JobId}
use ubuy_backend.Platform.{Env}
use ubuy_backend.Platform.World.{World}
use ubuy_backend.Auctions.Lifecycle.{
  CreateAuctionDto, create, end_auction, request_immediate_end, cancel_auction, delete_auction,
  get_bid_stats_for_user,
}
use ubuy_backend.Auctions.Lists.{BidSummary, find_created_by_user, find_bidded_by_user}
use ubuy_backend.Auctions.Payment.{confirm_winner_payment, confirm_winner_payment_by_provider}
use ubuy_backend.Auctions.Winner.{Decision, handle_payment_expiry_decision}
use ubuy_backend.Processor.{ExpiryAction, process}
use ubuy_backend.Texts.{Text}
use ubuy_backend.Auth.Keys.{Keys}
use ubuy_backend.Auth.Profile.{Identifier, get_public_profile}
use ubuy_backend.Payments.Cashfree.{Cashfree, verify_cashfree_payment_link}
use ubuy_backend.Payments.Webhook.{Payload, handle_webhook}
use ubuy_backend.Bids.{place_bid, commit_bid}

pub data Call : Type 0 where
  creates : CreateAuctionDto → UserId → Call
  ends : AuctionId → Call
  requests_end cancels deletes : AuctionId → UserId → Call
  reads_stats : UserId → Call
  lists_created : UserId → (page limit : Option ℕ) → (count : ℕ) → Call
  lists_bidded :
      (summaries : UserId → List Bid → List BidSummary)
      → (winners : AuctionId → List Bid → Option UserId) → UserId
      → (page limit : Option ℕ) → Call
  confirms : AuctionId → UserId → Call
  provider_confirms : AuctionId → Option UserId → Call
  decides : AuctionId → UserId → Decision → Call
  receives : Payload → Call
  checks_link : Cashfree → Text → Call
  reads_profile : Keys → Identifier → Call
  works : ExpiryAction → JobId → Call
  bids : UserId → AuctionId → ℕ → Call
  commits : UserId → AuctionId → ℕ → Auction → Call
  waits_until : ℕ → Call

module _ (e : Env) where
  -- The state after one call, whether it answers or throws.
  unfoldable pub run : Call → World → World
  run (creates dto u) w = (create e dto u w).1
  run (ends i) w = (end_auction e i w).1
  run (requests_end i u) w = (request_immediate_end e i u w).1
  run (cancels i u) w = (cancel_auction e i u w).1
  run (deletes i u) w = (delete_auction e i u w).1
  run (reads_stats u) w = (get_bid_stats_for_user e u w).1
  run (lists_created u page limit n) w = (find_created_by_user e u page limit n w).1
  run (lists_bidded summaries winners u page limit) w =
      (find_bidded_by_user e summaries winners u page limit w).1
  run (confirms i u) w = (confirm_winner_payment e i u w).1
  run (provider_confirms i o) w = (confirm_winner_payment_by_provider e i o w).1
  run (decides i u d) w = (handle_payment_expiry_decision e i u d w).1
  run (receives payload) w = (handle_webhook e payload w).1
  run (checks_link c link) w = (verify_cashfree_payment_link e c link w).1
  run (reads_profile k who) w = (get_public_profile e k who w).1
  run (works mode j) w = (process e mode j w).1
  run (bids u i x) w = (place_bid e u i x w).1
  run (commits u i x seen) w = (commit_bid e u i x seen w).1
  run (waits_until t) w = record w { now = t }

  unfoldable pub run_all : List Call → World → World
  unfolding run
  run_all [] w = w
  run_all (c ∷ cs) w = run_all cs (run c w)
