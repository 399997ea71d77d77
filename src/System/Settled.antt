-- ===== src/System/Settled.antt =====
-- What no sequence of calls can break.
use ubuy_backend.Base.{◌≡◌, some, List, [], ◌∷◌}
use ubuy_backend.Domain.{AuctionId, Auction, PaymentStatus}
use ubuy_backend.Platform.{Env}
use ubuy_backend.Platform.World.{World}
use ubuy_backend.Platform.Store.{lookup}
use ubuy_backend.Changes.{Changes, here}
use ubuy_backend.Changes.Invariant.{AllSound, StaysSettled, Changes-IsSound, settled_is_final}
use ubuy_backend.Changes.Methods.{
  trans, create-Respects, end_auction-Respects, request_immediate_end-Respects,
  cancel_auction-Respects, delete_auction-Respects, get_bid_stats_for_user-Respects,
  confirm_winner_payment-Respects, confirm_winner_payment_by_provider-Respects,
}
use ubuy_backend.Changes.Switching.{handle_payment_expiry_decision-Respects}
use ubuy_backend.Changes.Worker.{process-Respects}
use ubuy_backend.Changes.Bidding.{place_bid-Respects, commit_bid-Respects}
use ubuy_backend.Changes.Lists.{find_created_by_user-Respects, find_bidded_by_user-Respects}
use ubuy_backend.Changes.Money.{verify_cashfree_payment_link-Respects, get_public_profile-Respects}
use ubuy_backend.Changes.Webhook.{handle_webhook-Respects}
use ubuy_backend.System.{
  Call, creates, ends, requests_end, cancels, deletes, reads_stats, lists_created, lists_bidded,
  confirms, provider_confirms, decides, receives, checks_link, reads_profile, works, bids, commits,
  waits_until, run, run_all,
}

module _ (e : Env) where
  -- Whatever the call and however it ends, it changes the auction collection only by a sequence of
  -- changes that the specification allows.
  pub run-Changes : (c : Call) (w : World) → Changes e w.auctions (run e c w).auctions
  unfolding run
  run-Changes (creates dto u) w = create-Respects e dto u w
  run-Changes (ends i) w = end_auction-Respects e i w
  run-Changes (requests_end i u) w = request_immediate_end-Respects e i u w
  run-Changes (cancels i u) w = cancel_auction-Respects e i u w
  run-Changes (deletes i u) w = delete_auction-Respects e i u w
  run-Changes (reads_stats u) w = get_bid_stats_for_user-Respects e u w
  run-Changes (lists_created u page limit n) w = find_created_by_user-Respects e u page limit n w
  run-Changes (lists_bidded summaries winners u page limit) w =
      find_bidded_by_user-Respects e summaries winners u page limit w
  run-Changes (confirms i u) w = confirm_winner_payment-Respects e i u w
  run-Changes (provider_confirms i o) w = confirm_winner_payment_by_provider-Respects e i o w
  run-Changes (decides i u d) w = handle_payment_expiry_decision-Respects e i u d w
  run-Changes (receives payload) w = handle_webhook-Respects e payload w
  run-Changes (checks_link c link) w = verify_cashfree_payment_link-Respects e c link w
  run-Changes (reads_profile k who) w = get_public_profile-Respects e k who w
  run-Changes (works mode j) w = process-Respects e mode j w
  run-Changes (bids u i x) w = place_bid-Respects e u i x w
  run-Changes (commits u i x seen) w = commit_bid-Respects e u i x seen w
  run-Changes (waits_until t) w = here

  run_all-Changes : (cs : List Call) (w : World) → Changes e w.auctions (run_all e cs w).auctions
  unfolding run_all
  run_all-Changes [] w = here
  run_all-Changes (c ∷ cs) w = trans e (run-Changes c w) (run_all-Changes cs (run e c w))

  -- From a collection in which every auction with a winner has ended and every auction that is
  -- paid for has a winner, any sequence of calls leads to a collection of which the same holds.
  pub run_all-AllSound :
      (cs : List Call) (w : World) → AllSound e w.auctions → AllSound e (run_all e cs w).auctions
  run_all-AllSound cs w h =
      Changes-IsSound e w.auctions (run_all e cs w).auctions h (run_all-Changes cs w)

  -- From a collection in which every winner belongs to an ended auction and every payment to a
  -- winner, an auction that is paid for is still there after any sequence of calls, paid and
  -- ended, with the same winner, highest bidder and price.
  pub run_all-settled :
      (cs : List Call) (w : World) (i : AuctionId) (a : Auction)
      → AllSound e w.auctions
      → lookup e i w.auctions ≡ some a
      → a.payment_status ≡ PaymentStatus.paid
      → StaysSettled e i a (run_all e cs w).auctions
  run_all-settled cs w i a h =
      settled_is_final e i a w.auctions (run_all e cs w).auctions h (run_all-Changes cs w)
