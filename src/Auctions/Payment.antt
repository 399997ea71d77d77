-- ===== src/Auctions/Payment.antt =====
-- The payment window of a winner and the confirmation of a payment: `scheduleWinnerPaymentLifecycle`,
-- `clearWinnerPaymentLifecycleJobs`, `confirmWinnerPayment`, `confirmWinnerPaymentByProvider` and
-- `markAuctionNotified` of auctions.service.ts.
use ubuy_backend.Base.{
  ℕ, ◌+◌, ◌*◌, Bool, false, not, Option, none, some, ⊤, ◌==◌, is_just, if◌then◌else◌,
}
use ubuy_backend.Domain.{
  AuctionId, UserId, Auction, NotificationType, KeyKind, key, JobId, Emit, SocketEvent,
}
use ubuy_backend.Domain.Equality.{is_ended, is_paid}
use ubuy_backend.Platform.{Env}
use ubuy_backend.Platform.Store.{set_due_at, set_paid, set_notified, apply}
use ubuy_backend.Platform.Calls.{add_job, remove_job, find_auction, save_auction}
use ubuy_backend.Platform.World.{
  World, Action, auction_not_found, auction_not_ended, no_winner, not_current_winner,
  winner_mismatch, gets, pure, or_throw, throw_if, skip, attempt, emit, ◌>>=◌, ◌>>◌,
}
use ubuy_backend.Auctions.Push.{push}

-- `PAYMENT_REMINDER_DELAY_MS` and `PAYMENT_EXPIRY_DELAY_MS`.
abbrev pub payment_reminder_delay_ms : ℕ
payment_reminder_delay_ms = 12 * 60 * 60 * 1000

abbrev pub payment_expiry_delay_ms : ℕ
payment_expiry_delay_ms = 24 * 60 * 60 * 1000

-- Which of its two messages a confirmation answers with, and the auction.
pub data Confirmation : Type 0 where
  already_confirmed confirmed : Auction → Confirmation

-- `!winner || winner !== userId`
abbrev pub is_not_winner : Option UserId → UserId → Bool
is_not_winner winner u = not (is_just winner u)

-- `expectedWinnerUserId && winner !== expectedWinnerUserId`, for a winner that is set.
abbrev pub mismatches : Option UserId → UserId → Bool
mismatches none winner = false
mismatches (some u) winner = not (winner == u)

module _ (e : Env) where
  -- The answer is `paymentDueAt`.
  unfoldable pub schedule_winner_payment_lifecycle : AuctionId → UserId → Action ℕ
  unfolding add_job
  schedule_winner_payment_lifecycle i u = do
    now ← gets World.now
    let due_at = now + payment_expiry_delay_ms
    save_auction e i (set_due_at due_at)
    add_job e (JobId.payment_reminder i u) payment_reminder_delay_ms
    add_job e (JobId.payment_expired i u) payment_expiry_delay_ms
    pure due_at

  unfoldable pub clear_winner_payment_lifecycle_jobs : AuctionId → UserId → Action ⊤
  unfolding remove_job
  clear_winner_payment_lifecycle_jobs i u =
      remove_job e (JobId.payment_reminder i u) >> remove_job e (JobId.payment_expired i u)

  -- The `try` block of `confirmWinnerPayment`; `auction` is the document as it was read.
  unfoldable pub announce_payment : AuctionId → UserId → Auction → Action ⊤
  unfolding push
  announce_payment i u auction = do
    push e (record {
      user_id = u;
      type = NotificationType.payment_success;
      title = "Payment successful";
      dedupe_key = some (key KeyKind.manual_payment_success i u 0);
    })
    if not (auction.created_by == u)
        then push e (record {
          user_id = auction.created_by;
          type = NotificationType.system;
          title = "Winner payment received";
          dedupe_key = some (key KeyKind.manual_creator_payment_received i auction.created_by 0);
        })
        else skip
    emit (Emit.to_auction i (SocketEvent.payment_confirmed (some u) auction.payment_status))

  unfoldable pub confirm_winner_payment : AuctionId → UserId → Action Confirmation
  unfolding clear_winner_payment_lifecycle_jobs
  confirm_winner_payment i u = do
    auction ← or_throw (← find_auction e i) auction_not_found
    throw_if (not (is_ended auction.status)) auction_not_ended
    throw_if (is_not_winner auction.winner u) not_current_winner
    if is_paid auction.payment_status then pure (already_confirmed auction) else (do
      save_auction e i set_paid
      clear_winner_payment_lifecycle_jobs i u
      attempt (announce_payment i u (apply set_paid auction))
      pure (confirmed (apply set_paid auction)))

  -- With the winner in hand: the part of `confirmWinnerPaymentByProvider` below its `!winner` test.
  unfoldable pub confirm_for_winner :
      AuctionId → Option UserId → Auction → UserId → Action Confirmation
  unfolding clear_winner_payment_lifecycle_jobs
  confirm_for_winner i expected auction winner = do
    throw_if (mismatches expected winner) winner_mismatch
    if is_paid auction.payment_status then pure (already_confirmed auction) else (do
      save_auction e i set_paid
      clear_winner_payment_lifecycle_jobs i winner
      pure (confirmed (apply set_paid auction)))

  unfoldable pub confirm_winner_payment_by_provider :
      AuctionId → Option UserId → Action Confirmation
  unfolding confirm_for_winner
  confirm_winner_payment_by_provider i expected = do
    auction ← or_throw (← find_auction e i) auction_not_found
    throw_if (not (is_ended auction.status)) auction_not_ended
    winner ← or_throw auction.winner no_winner
    confirm_for_winner i expected auction winner

  unfoldable pub mark_auction_notified : AuctionId → Action ⊤
  mark_auction_notified i = save_auction e i set_notified
