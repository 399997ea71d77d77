-- ===== src/Auctions/Lifecycle.antt =====
-- Creating, ending, cancelling and deleting an auction, and the sweep of overdue auctions: `create`,
-- `endAuction`, `removeScheduledEndAuctionJob`, `requestImmediateEnd`, `cancelAuction`,
-- `deleteAuction` and `getBidStatsForUser` of auctions.service.ts.
use Prim.Native.String.{String}
use ubuy_backend.Base.{
  ℕ, ◌+◌, ◌-◌, Bool, true, false, not, ◌&&◌, ◌||◌, Option, none, some, List, [], ◌∷◌, ⊤, ◌==◌, leb,
  keep, is_just, if◌then◌else◌,
}
use ubuy_backend.Texts.{Text}
use ubuy_backend.Domain.{
  AuctionId, UserId, Auction, Status, PaymentStatus, NotificationType, KeyKind, key, JobId, Emit,
  SocketEvent,
}
use ubuy_backend.Domain.Equality.{is_ended, is_cancelled, is_paid}
use ubuy_backend.Platform.{Env}
use ubuy_backend.Platform.Store.{set_ended, set_cancelled, apply, deleted, swept}
use ubuy_backend.Platform.Calls.{add_job, remove_job, find_auction, save_auction}
use ubuy_backend.Platform.World.{
  World, Action, ok, auction_not_found, not_auction_creator, paid_auction, cancelled_auction,
  end_before_start, user_not_found, gets, pure, or_throw, throw_if, skip, attempt, modify, for_all,
  emit, ◌>>=◌, ◌>>◌,
}
use ubuy_backend.Notifications.{create_notification}
use ubuy_backend.Auctions.Push.{push}
use ubuy_backend.Auctions.Payment.{clear_winner_payment_lifecycle_jobs}

-- `CreateAuctionDto`
pub record CreateAuctionDto : Type 0 where
  pub title : String
  pub description : String
  pub images : List String
  pub starting_price : ℕ
  pub start_time : ℕ
  pub end_time : ℕ
  pub category : Text

-- The document that `create` writes, with the defaults of the schema.
abbrev pub new_auction : AuctionId → ℕ → UserId → CreateAuctionDto → Auction
new_auction id now u dto = record {
  id = id;
  title = dto.title;
  description = dto.description;
  images = dto.images;
  starting_price = dto.starting_price;
  current_price = dto.starting_price;
  status = Status.active;
  start_time = dto.start_time;
  end_time = dto.end_time;
  category = dto.category;
  created_by = u;
  highest_bidder = none;
  winner = none;
  notified = false;
  payment_status = PaymentStatus.active;
  payment_due_at = none;
  winner_history = [];
  created_at = now;
}

pub data EndReply : Type 0 where
  already_ended triggered : EndReply

pub data CancelReply : Type 0 where
  already_cancelled cancelled : Auction → CancelReply

pub record BidStats : Type 0 where
  pub total_bids : ℕ
  pub auctions_created : ℕ
  pub auctions_won : ℕ

-- `Array.from(new Set(items))`
pub unique : List ℕ → List ℕ
unique [] = []
unique (x ∷ xs) = x ∷ keep (λ y. not (y == x)) (unique xs)

abbrev pub contains : List ℕ → ℕ → Bool
contains [] x = false
contains (y ∷ ys) x = y == x || contains ys x

abbrev pub is_empty : List ℕ → Bool
is_empty [] = true
is_empty (x ∷ xs) = false

module _ (e : Env) where
  -- The new document and its id.
  unfoldable pub insert_auction : UserId → CreateAuctionDto → Action Auction
  insert_auction u dto w =
      let auction = new_auction (e.new_id w.issued) w.now u dto in
      (
        ok auction,
        record w { auctions = e.auctions.create auction w.auctions; issued = w.issued + 1 },
      )

  -- `-` on ℕ stops at 0, which is the `Math.max(0, …)` of the delay.
  unfoldable pub create : CreateAuctionDto → UserId → Action Auction
  unfolding insert_auction create_notification add_job
  create dto u = do
    throw_if (leb dto.end_time dto.start_time) end_before_start
    auction ← insert_auction u dto
    now ← gets World.now
    attempt (add_job e (JobId.end_auction auction.id) (auction.end_time - now))
    attempt (
        create_notification e (record {
          user_id = u;
          type = NotificationType.system;
          title = "Auction created";
          dedupe_key = some (key KeyKind.auction_created auction.id u 0);
        })
        >> skip)
    pure auction

  unfoldable pub end_auction : AuctionId → Action Auction
  end_auction i = do
    auction ← or_throw (← find_auction e i) auction_not_found
    if is_ended auction.status || is_cancelled auction.status then pure auction else (do
      save_auction e i (set_ended auction.highest_bidder)
      pure (apply (set_ended auction.highest_bidder) auction))

  unfoldable pub remove_scheduled_end_auction_job : AuctionId → Action ⊤
  unfolding remove_job
  remove_scheduled_end_auction_job i = remove_job e (JobId.end_auction i)

  unfoldable pub request_immediate_end : AuctionId → UserId → Action EndReply
  unfolding remove_scheduled_end_auction_job add_job
  request_immediate_end i actor = do
    auction ← or_throw (← find_auction e i) auction_not_found
    throw_if (not (auction.created_by == actor)) not_auction_creator
    throw_if (is_cancelled auction.status) cancelled_auction
    if is_ended auction.status then pure already_ended else (do
      remove_scheduled_end_auction_job i
      add_job e (JobId.end_auction i) 0
      pure triggered)

  -- `if (winner) await clearWinnerPaymentLifecycleJobs(…)`
  unfoldable pub clear_jobs_of : AuctionId → Option UserId → Action ⊤
  unfolding clear_winner_payment_lifecycle_jobs
  clear_jobs_of i none = skip
  clear_jobs_of i (some u) = clear_winner_payment_lifecycle_jobs e i u

  -- The calls that `cancelAuction` makes for the bidders.
  unfoldable pub tell_bidders : AuctionId → List UserId → Action ⊤
  unfolding for_all
  tell_bidders i users =
      for_all
        (λ u. push e (record {
          user_id = u;
          type = NotificationType.system;
          title = "Auction cancelled";
          dedupe_key = some (key KeyKind.auction_cancelled_bidder i u 0);
        }))
        users

  -- What follows `auction.save()` in `cancelAuction`.
  unfoldable pub announce_cancel : AuctionId → UserId → Action ⊤
  announce_cancel i actor = do
    emit (Emit.to_auction i (SocketEvent.auction_cancelled actor))
    push e (record {
      user_id = actor;
      type = NotificationType.system;
      title = "Auction cancelled";
      dedupe_key = some (key KeyKind.auction_cancelled i actor 0);
    })
    bidders ← gets λ w. e.distinct_bidders i w.bids
    tell_bidders i (unique (keep (λ u. not (u == actor)) bidders))

  unfoldable pub cancel_auction : AuctionId → UserId → Action CancelReply
  unfolding clear_jobs_of remove_scheduled_end_auction_job
  cancel_auction i actor = do
    auction ← or_throw (← find_auction e i) auction_not_found
    throw_if (not (auction.created_by == actor)) not_auction_creator
    if is_cancelled auction.status then pure (already_cancelled auction) else (do
      throw_if (is_paid auction.payment_status) paid_auction
      clear_jobs_of i (if is_ended auction.status then auction.winner else none)
      remove_scheduled_end_auction_job i
      save_auction e i set_cancelled
      announce_cancel i actor
      pure (cancelled (apply set_cancelled auction)))

  unfoldable pub delete_auction : AuctionId → UserId → Action ⊤
  unfolding clear_jobs_of remove_scheduled_end_auction_job
  delete_auction i actor = do
    auction ← or_throw (← find_auction e i) auction_not_found
    throw_if (not (auction.created_by == actor)) not_auction_creator
    throw_if (is_paid auction.payment_status) paid_auction
    remove_scheduled_end_auction_job i
    clear_jobs_of i auction.winner
    modify λ w. record w {
      bids = e.bids.delete_many (λ b. b.auction_id == i) w.bids;
      wishlists = e.wishlists.delete_many (λ x. x.auction_id == i) w.wishlists;
      auctions = deleted e i w.auctions;
    }
    emit (Emit.to_auction i (SocketEvent.auction_deleted actor))

  -- `updateMany({ _id: { $in: ids }, endTime: { $lte: now }, status: 'ACTIVE' }, …)`
  unfoldable pub sweep : List AuctionId → Action ⊤
  sweep ids = modify λ w. record w { auctions = swept e (λ a. contains ids a.id) w.now w.auctions }

  -- The counts over the auctions that the user has bid on, after the sweep of them. `AuthService` has
  -- the same statements in `getPublicProfile`.
  unfoldable pub bid_stats : UserId → List AuctionId → Action BidStats
  unfolding sweep
  bid_stats u ids = do
    if is_empty ids then skip else sweep ids
    total ← gets λ w.
        e.bids.count_documents (λ b. b.user_id == u && (is_empty ids || contains ids b.auction_id))
          w.bids
    created ← gets λ w. e.auctions.count_documents (λ a. a.created_by == u) w.auctions
    won ←
        gets
          λ w. e.auctions.count_documents (λ a. contains ids a.id && is_just a.winner u) w.auctions
    pure (record {
      total_bids = total;
      auctions_created = created;
      auctions_won = if is_empty ids then 0 else won;
    })

  unfoldable pub get_bid_stats_for_user : UserId → Action BidStats
  unfolding bid_stats
  get_bid_stats_for_user u = do
    user ← or_throw (← gets λ w. e.users.find_one (λ x. x.id == u) w.users) user_not_found
    bid_stats u (keep e.is_valid_id user.bidded_auctions)
