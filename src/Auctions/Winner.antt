-- ===== src/Auctions/Winner.antt =====
-- Choosing another winner when a payment window runs out: `findNextHighestBidder`,
-- `replaceWinnerWithNextBidder` and `handlePaymentExpiryDecision` of auctions.service.ts.
use ubuy_backend.Base.{
  ℕ, not, Option, none, some, List, [], ◌∷◌, ⊤, ◌==◌, keep, take, if◌then◌else◌,
}
use ubuy_backend.Domain.{
  AuctionId, UserId, Auction, Bid, Reason, creator_decision_push_next, NotificationType, KeyKind,
  key, Emit, SocketEvent,
}
use ubuy_backend.Domain.Equality.{is_paid}
use ubuy_backend.Platform.{Env}
use ubuy_backend.Platform.Store.{Patch, set_next_winner, apply}
use ubuy_backend.Platform.Calls.{find_auction, save_auction}
use ubuy_backend.Platform.World.{
  Action, auction_not_found, not_auction_creator, already_paid, no_winner, gets, pure, or_throw,
  throw_if, attempt, emit, ◌>>=◌, ◌>>◌,
}
use ubuy_backend.Auctions.Push.{push}
use ubuy_backend.Auctions.Payment.{
  schedule_winner_payment_lifecycle, clear_winner_payment_lifecycle_jobs,
}

-- `PaymentExpiryDecisionAction`
pub data Decision : Type 0 where
  push_next keep_current : Decision

pub record NextBidder : Type 0 where
  pub user_id : UserId
  pub amount : ℕ

-- The three answers of `handlePaymentExpiryDecision`; the number is `paymentDueAt`.
pub data DecisionReply : Type 0 where
  extended : ℕ → Auction → DecisionReply
  no_next_bidder : Auction → DecisionReply
  switched : ℕ → Auction → NextBidder → DecisionReply

-- The loop of `findNextHighestBidder`.
unfoldable pub first_other : UserId → List Bid → Option NextBidder
first_other u [] = none
first_other u (b ∷ bids) =
    if not (b.user_id == u)
    then some (record { user_id = b.user_id; amount = b.amount })
    else first_other u bids

-- The fields that `replaceWinnerWithNextBidder` sets.
abbrev pub next_winner : UserId → Reason → Auction → NextBidder → ℕ → Patch
next_winner previous reason auction next now =
    set_next_winner
      (record {
        user_id = previous;
        amount = auction.current_price;
        reason = reason;
        changed_at = now;
      })
      next.user_id next.amount

module _ (e : Env) where
  -- `bidModel.find({ auctionId }).sort({ amount: -1, createdAt: 1 })`
  unfoldable pub ranked_bids : AuctionId → List Bid → List Bid
  ranked_bids i c = e.best.sort (keep (λ b. b.auction_id == i) c)

  unfoldable pub find_next_highest_bidder : AuctionId → UserId → Action (Option NextBidder)
  unfolding first_other ranked_bids
  find_next_highest_bidder i u = gets λ w. first_other u (take 100 (ranked_bids i w.bids))

  -- The update of `replaceWinnerWithNextBidder`, from the document as it was read.
  unfoldable pub install_winner :
      AuctionId
      → UserId
      → Reason
      → Auction
      → Option NextBidder
      → Action (Option (Auction × NextBidder))
  install_winner i previous reason auction none w = pure none w
  install_winner i previous reason auction (some next) w =
      let patch = next_winner previous reason auction next w.now in
      (save_auction e i patch >> pure (some (apply patch auction, next))) w

  -- `none` is the null answer: there is nobody to promote.
  unfoldable pub replace_winner_with_next_bidder :
      AuctionId → UserId → Reason → Action (Option (Auction × NextBidder))
  unfolding find_next_highest_bidder install_winner
  replace_winner_with_next_bidder i previous reason = do
    auction ← or_throw (← find_auction e i) auction_not_found
    next ← find_next_highest_bidder i previous
    install_winner i previous reason auction next

  -- The `try` block of the KEEP_CURRENT branch.
  unfoldable pub announce_extension : AuctionId → UserId → UserId → Action ⊤
  unfolding push
  announce_extension i creator winner = do
    push e (record {
      user_id = winner;
      type = NotificationType.system;
      title = "Payment window extended";
      dedupe_key = some (key KeyKind.payment_extended i winner 0);
    })
    push e (record {
      user_id = creator;
      type = NotificationType.system;
      title = "Payment window extended";
      dedupe_key = some (key KeyKind.creator_payment_extended i creator 0);
    })

  -- The `try` block of the PUSH_NEXT branch.
  unfoldable pub announce_switch : AuctionId → UserId → UserId → NextBidder → ℕ → Action ⊤
  unfolding push
  announce_switch i creator winner next due_at = do
    push e (record {
      user_id = winner;
      type = NotificationType.system;
      title = "Winner changed";
      dedupe_key = some (key KeyKind.winner_changed_out i winner 0);
    })
    push e (record {
      user_id = next.user_id;
      type = NotificationType.auction_won;
      title = "You are now the winner";
      dedupe_key = some (key KeyKind.winner_reassigned_manual i next.user_id 0);
    })
    push e (record {
      user_id = creator;
      type = NotificationType.system;
      title = "Winner switched";
      dedupe_key = some (key KeyKind.creator_winner_switched i creator 0);
    })
    emit (
        Emit.to_auction i
          (SocketEvent.auction_winner_changed winner next.user_id next.amount due_at))

  unfoldable pub keep_current_winner : AuctionId → UserId → UserId → Auction → Action DecisionReply
  unfolding clear_winner_payment_lifecycle_jobs schedule_winner_payment_lifecycle announce_extension
  keep_current_winner i creator winner auction = do
    clear_winner_payment_lifecycle_jobs e i winner
    due_at ← schedule_winner_payment_lifecycle e i winner
    attempt (announce_extension i creator winner)
    pure (extended due_at auction)

  -- What follows `replaceWinnerWithNextBidder` in the PUSH_NEXT branch.
  unfoldable pub after_switch :
      AuctionId → UserId → UserId → Auction → Option (Auction × NextBidder) → Action DecisionReply
  unfolding clear_winner_payment_lifecycle_jobs schedule_winner_payment_lifecycle announce_switch
  after_switch i creator winner auction none = pure (no_next_bidder auction)
  after_switch i creator winner auction (some (promoted, next)) = do
    clear_winner_payment_lifecycle_jobs e i winner
    due_at ← schedule_winner_payment_lifecycle e i next.user_id
    attempt (announce_switch i creator winner next due_at)
    pure (switched due_at promoted next)

  unfoldable pub decide_for :
      Decision → AuctionId → UserId → UserId → Auction → Action DecisionReply
  unfolding keep_current_winner replace_winner_with_next_bidder after_switch
  decide_for keep_current i creator winner auction = keep_current_winner i creator winner auction
  decide_for push_next i creator winner auction = do
    replaced ← replace_winner_with_next_bidder i winner creator_decision_push_next
    after_switch i creator winner auction replaced

  unfoldable pub handle_payment_expiry_decision :
      AuctionId → UserId → Decision → Action DecisionReply
  unfolding decide_for
  handle_payment_expiry_decision i creator action = do
    auction ← or_throw (← find_auction e i) auction_not_found
    throw_if (not (auction.created_by == creator)) not_auction_creator
    throw_if (is_paid auction.payment_status) already_paid
    winner ← or_throw auction.winner no_winner
    decide_for action i creator winner auction
