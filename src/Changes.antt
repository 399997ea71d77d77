-- ===== src/Changes.antt =====
-- What a component may do to the auction collection: the abstract specification that the methods
-- implement, as a step relation. It says who may win, when a price may move and when a payment
-- counts, and nothing of notifications, jobs, locks or events.
pub mod Invariant
pub mod Methods
pub mod Switching
pub mod Worker
pub mod Bidding
pub mod Webhook
pub mod Lists
pub mod Money
use ubuy_backend.Base.{ℕ, ◌≡◌, ◌≢◌, ◌<◌, Bool, true, false, Option, none, some, List}
use ubuy_backend.Domain.{AuctionId, UserId, Auction, Status, PaymentStatus, WinnerHistoryEntry}
use ubuy_backend.Platform.{Env}
use ubuy_backend.Platform.Store.{
  Patch, set_ended, set_cancelled, set_due_at, set_paid, set_notified, set_bid, set_next_winner,
  lookup, patched, swept, deleted,
}

-- When an update may be applied to the document that is stored.
pub data Allowed (a : Auction) : Patch → Type 0 where
  bid :
      {x : ℕ} {u : UserId}
      → a.status ≡ Status.active
      → a.current_price < x
      → Allowed a (set_bid x u)
  close :
      {o : Option UserId}
      → a.status ≡ Status.active
      → o ≡ a.highest_bidder
      → Allowed a (set_ended o)
  cancel : a.payment_status ≡ PaymentStatus.active → Allowed a set_cancelled
  window : {t : ℕ} → Allowed a (set_due_at t)
  pay : {u : UserId} → a.status ≡ Status.ended → a.winner ≡ some u → Allowed a set_paid
  notify : Allowed a set_notified
  promote :
      {h : WinnerHistoryEntry} {u v : UserId} {x : ℕ}
      → a.payment_status ≡ PaymentStatus.active
      → a.winner ≡ some v
      → u ≢ v
      → Allowed a (set_next_winner h u x)

module _ (e : Env) where
  pub data Change (c c' : List Auction) : Type 0 where
    update :
        (i : AuctionId) (p : Patch) (a : Auction)
        → lookup e i c ≡ some a
        → Allowed a p
        → c' ≡ patched e i p c
        → Change c c'
    overdue : (p : Auction → Bool) (now : ℕ) → c' ≡ swept e p now c → Change c c'
    create :
        (a : Auction)
        → a.status ≡ Status.active
        → a.winner ≡ none
        → a.payment_status ≡ PaymentStatus.active
        → c' ≡ e.auctions.create a c
        → Change c c'
    delete :
        (i : AuctionId) (a : Auction)
        → lookup e i c ≡ some a
        → a.payment_status ≡ PaymentStatus.active
        → c' ≡ deleted e i c
        → Change c c'

  pub data Changes (c : List Auction) : List Auction → Type 0 where
    here : Changes c c
    next : {c' c'' : List Auction} → Changes c c' → Change c' c'' → Changes c c''
