-- ===== src/Changes/Worker.antt =====
-- The queue worker performs allowed changes only.
use ubuy_backend.Base.{
  ℕ, ◌+◌, ◌≡◌, refl, ap, ◌⊎◌, ◌||◌, ◌∙◌, inl, inr, not, Option, none, some, arith, Bool-cases, ◌++◌,
  [], ◌∷◌,
}
use ubuy_backend.Domain.{
  Emit, SocketEvent, AuctionId, UserId, Auction, PaymentStatus, payment_expired_auto_switch, JobId,
}
use ubuy_backend.Domain.Equality.{is_ended}
use ubuy_backend.Platform.{Env}
use ubuy_backend.Platform.World.{World}
use ubuy_backend.Platform.Store.{set_due_at, lookup, patched}
use ubuy_backend.Auctions.Payment.{mark_auction_notified, payment_expiry_delay_ms}
use ubuy_backend.Auctions.Winner.{NextBidder, replace_winner_with_next_bidder}
use ubuy_backend.Auctions.Push.{push}
use ubuy_backend.Auctions.Lifecycle.{end_auction}
use ubuy_backend.Auctions.Frames.{push-Spares}
use ubuy_backend.Processor.{
  ExpiryAction, switch, ask_creator, open_payment_window, announce_end, after_end,
  handle_end_auction, handle_payment_reminder, after_auto_switch, resolve_expiry, is_stale, expire,
  expiry_notice, handle_payment_expired, process,
}
use ubuy_backend.Changes.{window, Changes, here}
use ubuy_backend.Changes.Methods.{
  Respects, no_change, free_update, bind-Changes, bind-Changes_at, end_auction-Respects,
  mark_auction_notified-Respects,
}
use ubuy_backend.Changes.Switching.{replace-Changes}

module _ (e : Env) where
  -- The payment window is opened, or a call before it was rejected.
  open_payment_window-cases :
      (i : AuctionId) (u : UserId) (w : World)
      → ((open_payment_window e i (some u) w).1.auctions ≡ w.auctions)
        ⊎ ((open_payment_window e i (some u) w).1.auctions
            ≡ patched e i (set_due_at (w.now + payment_expiry_delay_ms)) w.auctions)
  unfolding open_payment_window
  open_payment_window-cases i u w = ground arith

  window_update :
      (i : AuctionId) (t : ℕ) (w : World)
      → Changes e w.auctions (patched e i (set_due_at t) w.auctions)
  window_update i t w = free_update e i (set_due_at t) w.auctions (λ a. window)

  open_payment_window-Respects :
      (i : AuctionId) (o : Option UserId) → Respects e (open_payment_window e i o)
  unfolding open_payment_window
  open_payment_window-Respects i none w = here
  open_payment_window-Respects i (some u) w = elim (open_payment_window-cases i u w) [
    | inl same ↦ no_change e same
    | inr eq ↦ rw eq (window_update i (w.now + payment_expiry_delay_ms) w)
  ]

  announce_end-Respects : (i : AuctionId) (a : Auction) → Respects e (announce_end e i a)
  unfolding announce_end
  announce_end-Respects i a w =
      bind-Changes e (open_payment_window e i a.highest_bidder) (λ _. mark_auction_notified e i)
        (record w {
          emitted =
              w.emitted
              ++ Emit.to_auction i (SocketEvent.auction_ended a.highest_bidder a.current_price)
                ∷ [];
        })
        (open_payment_window-Respects i a.highest_bidder _)
        (λ _. mark_auction_notified-Respects e i)

  after_end-Respects : (i : AuctionId) (a : Auction) → Respects e (after_end e i a)
  unfolding after_end
  after_end-Respects i a w = elim (Bool-cases (not (is_ended a.status) || a.notified)) [
    | inl done ↦ no_change e (ground arith)
    | inr due ↦ rw due (announce_end-Respects i a w)
  ]

  pub handle_end_auction-Respects : (i : AuctionId) → Respects e (handle_end_auction e i)
  unfolding handle_end_auction
  handle_end_auction-Respects i w =
      bind-Changes e (end_auction e i) (after_end e i) w (end_auction-Respects e i w)
        (after_end-Respects i)

  handle_payment_reminder-Respects :
      (i : AuctionId) (u : UserId) → Respects e (handle_payment_reminder e i u)
  unfolding handle_payment_reminder
  handle_payment_reminder-Respects i u w = no_change e (ground arith)

  after_auto_switch-cases :
      (i : AuctionId) (creator u : UserId) (b : Auction) (n : NextBidder) (w : World)
      → (after_auto_switch e i creator u (some (b, n)) w).1.auctions
        ≡ patched e i (set_due_at (w.now + payment_expiry_delay_ms)) w.auctions
  unfolding after_auto_switch
  after_auto_switch-cases i creator u b n w = ground arith

  after_auto_switch-Respects :
      (i : AuctionId) (creator u : UserId) (o : Option (Auction × NextBidder))
      → Respects e (after_auto_switch e i creator u o)
  unfolding after_auto_switch
  after_auto_switch-Respects i creator u none w = no_change e (ground arith)
  after_auto_switch-Respects i creator u (some (b, n)) w =
      rw (after_auto_switch-cases i creator u b n w)
        (window_update i (w.now + payment_expiry_delay_ms) w)

  resolve_expiry-Changes :
      (mode : ExpiryAction) (i : AuctionId) (creator u : UserId) (a : Auction) (w : World)
      → lookup e i w.auctions ≡ some a
      → a.payment_status ≡ PaymentStatus.active
      → a.winner ≡ some u
      → Changes e w.auctions (resolve_expiry e mode i creator u w).1.auctions
  unfolding resolve_expiry
  resolve_expiry-Changes ask_creator i creator u a w found unpaid won = no_change e (ground arith)
  resolve_expiry-Changes switch i creator u a w found unpaid won =
      bind-Changes e (replace_winner_with_next_bidder e i u payment_expired_auto_switch)
        (after_auto_switch e i creator u) w
        (replace-Changes e i u payment_expired_auto_switch a w found unpaid won)
        (after_auto_switch-Respects i creator u)

  expire-Changes :
      (mode : ExpiryAction) (i : AuctionId) (u : UserId) (a : Auction) (w : World)
      → lookup e i w.auctions ≡ some a
      → Changes e w.auctions (expire e mode i u (some a) w).1.auctions
  unfolding expire
  expire-Changes mode i u a w found = elim (Bool-cases (is_stale e u a)) [
    | inl stale ↦ no_change e (ground arith)
    | inr current ↦ rw current (
        bind-Changes_at e (push e (expiry_notice i u)) (λ _. resolve_expiry e mode i a.created_by u)
          w (no_change e (push-Spares e (expiry_notice i u) w))
          (λ _.
            resolve_expiry-Changes mode i a.created_by u a _
              (ap (lookup e i) (push-Spares e (expiry_notice i u) w) ∙ found) (ground arith)
              (ground arith)))
  ]

  expire_found :
      (mode : ExpiryAction) (i : AuctionId) (u : UserId) (o : Option Auction) (w : World)
      → lookup e i w.auctions ≡ o
      → Changes e w.auctions (expire e mode i u o w).1.auctions
  unfolding expire
  expire_found mode i u none w found = here
  expire_found mode i u (some a) w found = expire-Changes mode i u a w found

  pub handle_payment_expired-Respects :
      (mode : ExpiryAction) (i : AuctionId) (u : UserId)
      → Respects e (handle_payment_expired e mode i u)
  unfolding handle_payment_expired
  handle_payment_expired-Respects mode i u w = expire_found mode i u (lookup e i w.auctions) w refl

  pub process-Respects : (mode : ExpiryAction) (j : JobId) → Respects e (process e mode j)
  unfolding process
  process-Respects mode (JobId.end_auction i) w = handle_end_auction-Respects i w
  process-Respects mode (JobId.payment_reminder i u) w = handle_payment_reminder-Respects i u w
  process-Respects mode (JobId.payment_expired i u) w = handle_payment_expired-Respects mode i u w
