-- ===== src/Domain.antt =====
-- The documents that the services keep: auctions/schemas/auction.schema.ts,
-- bids/schemas/bid.schema.ts, users/schemas/user.schema.ts, wishlist/schemas/wishlist.schema.ts and
-- notifications/schemas/notification.schema.ts, the jobs of `auctionQueue` and the socket events.
-- Ids are opaque and only compared, so they are numbers. Dates are milliseconds. Amounts are
-- numbers that are only compared and copied.
pub mod Equality
use Prim.Native.String.{String}
use ubuy_backend.Base.{ℕ, Bool, Option, List}
use ubuy_backend.Texts.{Text}

abbrev pub UserId : Type 0
UserId = ℕ

abbrev pub AuctionId : Type 0
AuctionId = ℕ

pub data Status : Type 0 where
  active ended cancelled : Status

pub data PaymentStatus : Type 0 where
  paid active : PaymentStatus

-- The `reason` strings of the winner history.
pub data Reason : Type 0 where
  payment_expired payment_expired_auto_switch creator_decision_push_next : Reason

pub record WinnerHistoryEntry : Type 0 where
  pub user_id : UserId
  pub amount : ℕ
  pub reason : Reason
  pub changed_at : ℕ

pub record Auction : Type 0 where
  pub id : AuctionId
  pub title : String
  pub description : String
  pub images : List String
  pub starting_price : ℕ
  pub current_price : ℕ
  pub status : Status
  pub start_time : ℕ
  pub end_time : ℕ
  pub category : Text
  pub created_by : UserId
  pub highest_bidder : Option UserId
  pub winner : Option UserId
  pub notified : Bool
  pub payment_status : PaymentStatus
  pub payment_due_at : Option ℕ
  pub winner_history : List WinnerHistoryEntry
  pub created_at : ℕ

pub record Bid : Type 0 where
  pub auction_id : AuctionId
  pub user_id : UserId
  pub amount : ℕ
  pub created_at : ℕ

pub data Provider : Type 0 where
  local google : Provider

pub record User : Type 0 where
  pub id : UserId
  pub email : Text
  pub username : Option Text
  pub password : Option Text
  pub name : Option Text
  pub image : Option Text
  pub is_verified : Bool
  pub google_id : Option Text
  pub provider : Provider
  pub bidded_auctions : List AuctionId
  pub verification_code : Option Text
  pub verification_code_expiry : Option ℕ
  pub password_reset_code : Option Text
  pub password_reset_code_expiry : Option ℕ
  pub failed_login_attempts : ℕ
  pub locked_until : Option ℕ
  pub created_at : ℕ

pub record Wishlist : Type 0 where
  pub user_id : UserId
  pub auction_id : AuctionId
  pub created_at : ℕ

pub data NotificationType : Type 0 where
  auction_won outbid payment_reminder payment_success system : NotificationType

-- The prefix of a `dedupeKey` string.
pub data KeyKind : Type 0 where
  auction_created auction_cancelled auction_cancelled_bidder : KeyKind
  manual_payment_success manual_creator_payment_received : KeyKind
  payment_success creator_payment_received : KeyKind
  payment_extended creator_payment_extended : KeyKind
  winner_changed_out winner_reassigned_manual creator_winner_switched : KeyKind
  winner payment_reminder payment_expired creator_action_required : KeyKind
  no_backup_bidder winner_reassigned out_bid : KeyKind

-- `prefix:auctionId:userId`, with the amount at the end for `outBid` and 0 here for the others.
pub data DedupeKey : Type 0 where
  key : KeyKind → AuctionId → UserId → ℕ → DedupeKey

pub record Notification : Type 0 where
  pub id : ℕ
  pub user_id : UserId
  pub type : NotificationType
  pub title : String
  pub dedupe_key : Option DedupeKey
  pub is_read : Bool
  pub read_at : Option ℕ
  pub created_at : ℕ

-- The `jobId` of a job, which also determines its name and its data.
pub data JobId : Type 0 where
  end_auction : AuctionId → JobId
  payment_reminder payment_expired : AuctionId → UserId → JobId

pub record Job : Type 0 where
  pub id : JobId
  pub delay : ℕ
  pub timestamp : ℕ

pub data SocketEvent : Type 0 where
  auction_deleted auction_cancelled : UserId → SocketEvent
  auction_ended : (winner : Option UserId) (final_price : ℕ) → SocketEvent
  auction_winner_changed :
      (previous_winner new_winner : UserId) (amount payment_due_at : ℕ) → SocketEvent
  payment_confirmed : (winner : Option UserId) → PaymentStatus → SocketEvent
  new_bid : (amount : ℕ) → UserId → SocketEvent
  out_bid : (previous_amount new_amount : ℕ) (outbid_by : UserId) → SocketEvent
  notification_new : Notification → SocketEvent

-- `server.to(room).emit(event)`: the room of an auction, or `user:<id>`.
pub data Emit : Type 0 where
  to_auction : AuctionId → SocketEvent → Emit
  to_user : UserId → SocketEvent → Emit

-- The two mails that carry a code.
pub data MailKind : Type 0 where
  verification password_reset : MailKind

pub record Mail : Type 0 where
  pub kind : MailKind
  pub to : Text
  pub code : Text
