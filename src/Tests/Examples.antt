-- ===== src/Tests/Examples.antt =====
-- Each theorem at one market where its hypotheses hold.
use ubuy_backend.Base.{
  ◌⊎◌, ◌++◌, ◌≡◌, ◌≢◌, ◌<◌, refl, true, false, ◌&&◌, ◌==◌, none, some, List, [], ◌∷◌, arith, count,
}
use ubuy_backend.Domain.{Auction, Emit, SocketEvent, Bid, Wishlist, JobId, PaymentStatus}
use ubuy_backend.Domain.Equality.{same_job}
use ubuy_backend.Platform.{Env}
use ubuy_backend.Platform.Memory.Sorting.{sort}
use ubuy_backend.Platform.World.{
  is_ok, ok, err, unavailable, lock_taken, consecutive_bids, not_current_winner,
}
use ubuy_backend.Platform.Store.{
  lookup, patched, deleted, mark_ended, bid_if_higher, set_bid, apply,
}
use ubuy_backend.Changes.{Changes}
use ubuy_backend.Changes.Invariant.{IsSound}
use ubuy_backend.Bids.{place_bid, bid_locked, bid_in_time, commit_bid}
use ubuy_backend.Bids.Accepted.{IsAccepted, place_bid-IsAccepted}
use ubuy_backend.Bids.Lock.{place_bid-lock}
use ubuy_backend.Bids.CutOff.{IsCutOff}
use ubuy_backend.Bids.Refused.{IsRefused, place_bid-IsRefused}
use ubuy_backend.Auctions.Winner.{find_next_highest_bidder, ranked_bids, NextBidder}
use ubuy_backend.Auctions.Ranking.{
  outranks, is_bid_of, find_next_highest_bidder-best, passed_over_again,
}
use ubuy_backend.Auctions.Lifecycle.{sweep, end_auction, clear_jobs_of, delete_auction}
use ubuy_backend.Auctions.Deleted.{delete_auction-clears}
use ubuy_backend.Auctions.Payment.{confirm_winner_payment}
use ubuy_backend.Auctions.Swept.{sweep_loses_winner}
use ubuy_backend.Processor.{ExpiryAction, process, handle_end_auction}
use ubuy_backend.Processor.Once.{IsAnnounced, handle_end_auction-once}
use ubuy_backend.System.{Call, bids, waits_until, works, confirms, cancels, run, run_all}
use ubuy_backend.System.Settled.{run-Changes}
use ubuy_backend.System.PaidJobs.{paid_jobs_idle}
use ubuy_backend.Tests.Market.{
  env, lamp, led_lamp, paid_lamp, opened, contested, overdue, sold, paid, bid_by, two_bids,
}

abbrev a_sale : List Call
a_sale =
    bids 8 1 120
    ∷ bids 9 1 130
    ∷ waits_until 2000
    ∷ works ExpiryAction.switch (JobId.end_auction 1)
    ∷ confirms 1 9
    ∷ cancels 1 7
    ∷ []

lamp-IsSound : IsSound lamp
lamp-IsSound = ground arith

paid_lamp-IsSound : IsSound paid_lamp
paid_lamp-IsSound = ground arith

paid_lookup : lookup env 1 paid.auctions ≡ some paid_lamp
unfolding lookup
paid_lookup = refl

overdue_lookup : lookup env 1 overdue.auctions ≡ some led_lamp
unfolding lookup
overdue_lookup = refl

run-Changes_example : Changes env opened.auctions (run env (bids 8 1 120) opened).auctions
run-Changes_example = run-Changes env (bids 8 1 120) opened

bid_answered : (place_bid env 8 1 140 contested).0 ≡ ok (apply (set_bid 140 8) led_lamp)
unfolding place_bid bid_locked lookup bid_in_time sort commit_bid bid_if_higher
bid_answered = refl

bid_refused : (place_bid env 9 1 140 contested).0 ≡ err consecutive_bids
unfolding place_bid bid_locked lookup bid_in_time sort
bid_refused = refl

place_bid-IsAccepted_example :
    IsAccepted env 8 1 140 contested
      (place_bid env 8 1 140 contested).1
      (apply (set_bid 140 8) led_lamp)
place_bid-IsAccepted_example = place_bid-IsAccepted env 8 1 140 contested _ bid_answered

-- The same market when every guarded call is rejected.
abbrev broken : Env
broken = record env { outage = λ n. true }

bid_cut_off : (place_bid broken 8 1 140 contested).0 ≡ err unavailable
unfolding place_bid bid_locked lookup bid_in_time sort commit_bid bid_if_higher
bid_cut_off = refl

place_bid-IsRefused_example :
    IsRefused broken 1 contested (place_bid broken 8 1 140 contested).1
    ⊎ IsCutOff broken 8 1 140 unavailable contested (place_bid broken 8 1 140 contested).1
place_bid-IsRefused_example = place_bid-IsRefused broken 8 1 140 contested unavailable bid_cut_off

place_bid-lock_example :
    (env.redis.exists 500 1 contested.locks ≡ true
      → place_bid env 8 1 140 contested ≡ (err lock_taken, contested))
    × (env.redis.exists 500 1 contested.locks ≡ false
        → env.redis.exists 500 1 (place_bid env 8 1 140 contested).1.locks ≡ false)
place_bid-lock_example = place_bid-lock env 8 1 140 500 contested refl

abbrev second : NextBidder
second = record { user_id = 8; amount = 120 }

next_is_second : find_next_highest_bidder env 1 9 sold ≡ (ok (some second), sold)
unfolding find_next_highest_bidder sort
next_is_second = refl

nobody_else :
    find_next_highest_bidder env 1 9 (record sold { bids = bid_by 9 130 20 ∷ [] })
    ≡ (ok none, record sold { bids = bid_by 9 130 20 ∷ [] })
unfolding find_next_highest_bidder sort
nobody_else = refl

ranked_two : ranked_bids env 1 sold.bids ≡ bid_by 9 130 20 ∷ bid_by 8 120 10 ∷ []
unfolding ranked_bids sort
ranked_two = refl

find_next_highest_bidder-best_example :
    (second.user_id ≢ 9)
    × (0 < count (λ (b : Bid). b.auction_id == 1 && is_bid_of second b) two_bids)
    × (count (λ (b : Bid). b.auction_id == 1 && outranks 9 120 b) two_bids ≡ 0)
find_next_highest_bidder-best_example = find_next_highest_bidder-best env 1 9 sold next_is_second

passed_over_again_example :
    find_next_highest_bidder env 1 8 sold ≡ (ok (some (record { user_id = 9; amount = 130 })), sold)
passed_over_again_example =
    passed_over_again env 1 (bid_by 9 130 20) (bid_by 8 120 10 ∷ []) sold second ranked_two
      next_is_second

sweep_loses_winner_example :
    (end_auction env 1 (sweep env (1 ∷ []) overdue).1
      ≡ (ok (mark_ended led_lamp), (sweep env (1 ∷ []) overdue).1))
    × ((confirm_winner_payment env 1 9 (end_auction env 1 (sweep env (1 ∷ []) overdue).1).1).0
        ≡ err not_current_winner)
sweep_loses_winner_example =
    sweep_loses_winner env 1 (1 ∷ []) led_lamp overdue 9 overdue_lookup refl refl refl (omega arith)

ended_once : is_ok (handle_end_auction env 1 overdue).0 ≡ true
unfolding handle_end_auction lookup patched same_job
ended_once = refl

handle_end_auction-once_example :
    IsAnnounced env 1 (some 9) (handle_end_auction env 1 overdue).1.auctions
    × ((rest : List Emit) × ((handle_end_auction env 1 overdue).1.emitted
          ≡ (overdue.emitted ++ Emit.to_auction 1 (SocketEvent.auction_ended (some 9) 130) ∷ [])
            ++ rest))
    × (handle_end_auction env 1 (record (handle_end_auction env 1 overdue).1 { now = 3000 })
        ≡ (ok tt, record (handle_end_auction env 1 overdue).1 { now = 3000 }))
handle_end_auction-once_example =
    handle_end_auction-once env 1 led_lamp overdue 3000 overdue_lookup refl refl ended_once

paid_jobs_idle_example :
    (process env ExpiryAction.switch (JobId.payment_reminder 1 9) (run_all env a_sale paid)
      ≡ (ok tt, run_all env a_sale paid))
    × (process env ExpiryAction.switch (JobId.payment_expired 1 9) (run_all env a_sale paid)
        ≡ (ok tt, run_all env a_sale paid))
paid_jobs_idle_example =
    paid_jobs_idle env ExpiryAction.switch a_sale paid 1 9 paid_lamp (paid_lamp-IsSound, tt)
      paid_lookup refl

deleted_once : is_ok (delete_auction env 1 7 overdue).0 ≡ true
unfolding delete_auction clear_jobs_of lookup
deleted_once = refl

delete_auction-clears_example :
    (a : Auction) × (lookup env 1 overdue.auctions ≡ some a)
    × (a.created_by ≡ 7)
    × (a.payment_status ≡ PaymentStatus.active)
    × ((delete_auction env 1 7 overdue).1.auctions ≡ deleted env 1 overdue.auctions)
    × (count (λ (b : Bid). b.auction_id == 1) (delete_auction env 1 7 overdue).1.bids ≡ 0)
    × (count (λ (x : Wishlist). x.auction_id == 1) (delete_auction env 1 7 overdue).1.wishlists ≡ 0)
delete_auction-clears_example = delete_auction-clears env 1 7 overdue deleted_once
