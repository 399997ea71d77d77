-- ===== src/Tests/Runs.antt =====
-- Short runs of the services.
use ubuy_backend.Base.{◌≡◌, refl, some, [], ◌∷◌, length}
use ubuy_backend.Domain.{JobId}
use ubuy_backend.Domain.Equality.{same_job}
use ubuy_backend.Platform.Memory.Sorting.{sort}
use ubuy_backend.Platform.World.{ok, err, lock_taken, consecutive_bids, bid_too_low, own_auction}
use ubuy_backend.Platform.Store.{lookup, bid_if_higher}
use ubuy_backend.Bids.{place_bid, bid_locked, bid_in_time, commit_bid}
use ubuy_backend.Auctions.Winner.{find_next_highest_bidder}
use ubuy_backend.Processor.{ExpiryAction, process}
use ubuy_backend.Tests.Market.{env, opened, contested, overdue, sold, led_lamp}

bid_runs :
    ((place_bid env 8 1 120 opened).0
      ≡ ok (record led_lamp { current_price = 120; highest_bidder = some 8 }))
    × ((place_bid env 7 1 120 opened).0 ≡ err own_auction)
    × ((place_bid env 9 1 140 contested).0 ≡ err consecutive_bids)
    × ((place_bid env 8 1 130 contested).0 ≡ err bid_too_low)
    × ((place_bid env 8 1 140 (record contested { locks = (1, 600) ∷ [] })).0 ≡ err lock_taken)
unfolding place_bid bid_locked lookup bid_in_time sort commit_bid bid_if_higher
bid_runs = (refl, refl, refl, refl, refl)

-- Ending the auction announces it and the notification of the winner, and schedules two jobs.
ends_once :
    (length (process env ExpiryAction.switch (JobId.end_auction 1) overdue).1.emitted ≡ 2)
    × (length (process env ExpiryAction.switch (JobId.end_auction 1) overdue).1.jobs ≡ 2)
unfolding process lookup same_job
ends_once = (refl, refl)

next_is_second :
    find_next_highest_bidder env 1 9 sold ≡ (ok (some (record { user_id = 8; amount = 120 })), sold)
unfolding find_next_highest_bidder sort
next_is_second = refl
