-- ===== src/Processor.antt =====
-- modules/auctions/auction.processor.ts: the worker of `auctionQueue`. Logging is left out; the
-- handlers of the worker's events are in Processor/Events.
pub mod Once
pub mod Told
pub mod Events
use ubuy_backend.Base.{Bool, not, ◌||◌, Option, none, some, ⊤, is_just, if◌then◌else◌}
use ubuy_backend.Domain.{
  AuctionId, UserId, Auction, payment_expired_auto_switch, NotificationType, KeyKind, key, JobId,
  Emit, SocketEvent,
}
use ubuy_backend.Domain.Equality.{is_ended, is_paid}
use ubuy_backend.Platform.{Env}
use ubuy_backend.Platform.Calls.{find_auction}
use ubuy_backend.Platform.World.{Action, skip, emit, ◌>>=◌, ◌>>◌}
use ubuy_backend.Notifications.{Input}
use ubuy_backend.Auctions.Push.{push}
use ubuy_backend.Auctions.Lifecycle.{end_auction}
use ubuy_backend.Auctions.Payment.{schedule_winner_payment_lifecycle, mark_auction_notified}
use ubuy_backend.Auctions.Winner.{NextBidder, replace_winner_with_next_bidder}

-- The setting `PAYMENT_EXPIRY_ACTION`, as `actionMode` reads it.
pub data ExpiryAction : Type 0 where
  switch ask_creator : ExpiryAction

abbrev pub expiry_notice : AuctionId → UserId → Input
expiry_notice i u = record {
  user_id = u;
  type = NotificationType.system;
  title = "Payment window expired";
  dedupe_key = some (key KeyKind.payment_expired i u 0);
}

module _ (e : Env) where
  -- `if (auction.highestBidder) { … }` in `handleEndAuction`.
  unfoldable pub open_payment_window : AuctionId → Option UserId → Action ⊤
  unfolding push schedule_winner_payment_lifecycle
  open_payment_window i none = skip
  open_payment_window i (some u) = do
    push e (record {
      user_id = u;
      type = NotificationType.auction_won;
      title = "You won the auction";
      dedupe_key = some (key KeyKind.winner i u 0);
    })
    schedule_winner_payment_lifecycle e i u
    skip

  unfoldable pub announce_end : AuctionId → Auction → Action ⊤
  unfolding open_payment_window mark_auction_notified
  announce_end i auction = do
    emit
        (Emit.to_auction i (SocketEvent.auction_ended auction.highest_bidder auction.current_price))
    open_payment_window i auction.highest_bidder
    mark_auction_notified e i

  -- What `handleEndAuction` does once the auction has been ended, or was already.
  unfoldable pub after_end : AuctionId → Auction → Action ⊤
  unfolding announce_end
  after_end i auction =
      if not (is_ended auction.status) || auction.notified then skip else announce_end i auction

  unfoldable pub handle_end_auction : AuctionId → Action ⊤
  unfolding end_auction after_end
  handle_end_auction i = do after_end i (← end_auction e i)

  -- The early returns that the two payment handlers share: paid, or the winner has changed.
  abbrev pub is_stale : UserId → Auction → Bool
  is_stale u auction = is_paid auction.payment_status || not (is_just auction.winner u)

  unfoldable pub remind : AuctionId → UserId → Option Auction → Action ⊤
  unfolding push
  remind i u none = skip
  remind i u (some auction) =
      if is_stale u auction
      then skip
      else push e (record {
        user_id = u;
        type = NotificationType.payment_reminder;
        title = "Payment reminder";
        dedupe_key = some (key KeyKind.payment_reminder i u 0);
      })

  unfoldable pub handle_payment_reminder : AuctionId → UserId → Action ⊤
  unfolding remind
  handle_payment_reminder i u = do remind i u (← find_auction e i)

  -- What follows `replaceWinnerWithNextBidder`.
  unfoldable pub after_auto_switch :
      AuctionId → UserId → UserId → Option (Auction × NextBidder) → Action ⊤
  unfolding push schedule_winner_payment_lifecycle
  after_auto_switch i creator u none = push e (record {
    user_id = creator;
    type = NotificationType.system;
    title = "No backup bidder available";
    dedupe_key = some (key KeyKind.no_backup_bidder i u 0);
  })
  after_auto_switch i creator u (some (promoted, next)) = do
    due_at ← schedule_winner_payment_lifecycle e i next.user_id
    push e (record {
      user_id = next.user_id;
      type = NotificationType.auction_won;
      title = "You are now the winner";
      dedupe_key = some (key KeyKind.winner_reassigned i next.user_id 0);
    })
    emit (Emit.to_auction i (SocketEvent.auction_winner_changed u next.user_id next.amount due_at))

  unfoldable pub resolve_expiry : ExpiryAction → AuctionId → UserId → UserId → Action ⊤
  unfolding push replace_winner_with_next_bidder after_auto_switch
  resolve_expiry ask_creator i creator u = push e (record {
    user_id = creator;
    type = NotificationType.system;
    title = "Winner payment expired";
    dedupe_key = some (key KeyKind.creator_action_required i u 0);
  })
  resolve_expiry switch i creator u = do
    replaced ← replace_winner_with_next_bidder e i u payment_expired_auto_switch
    after_auto_switch i creator u replaced

  unfoldable pub expire : ExpiryAction → AuctionId → UserId → Option Auction → Action ⊤
  unfolding resolve_expiry
  expire mode i u none = skip
  expire mode i u (some auction) =
      if is_stale u auction
      then skip
      else (do push e (expiry_notice i u); resolve_expiry mode i auction.created_by u)

  unfoldable pub handle_payment_expired : ExpiryAction → AuctionId → UserId → Action ⊤
  unfolding expire
  handle_payment_expired mode i u = do expire mode i u (← find_auction e i)

  -- `process(job)`: the name and the data of a job are those of its id.
  unfoldable pub process : ExpiryAction → JobId → Action ⊤
  unfolding handle_end_auction handle_payment_reminder handle_payment_expired
  process mode (JobId.end_auction i) = handle_end_auction i
  process mode (JobId.payment_reminder i u) = handle_payment_reminder i u
  process mode (JobId.payment_expired i u) = handle_payment_expired mode i u
