-- ===== src/Processor/Told.antt =====
-- The events that opening a payment window adds.
use mathlib.Core.List.{append-nil}
use ubuy_backend.Base.{◌++◌, [], ◌∷◌, ◌≡◌, refl, ◌∙◌, Option, none, some, arith, ⊤, List, sym}
use ubuy_backend.Domain.{
  AuctionId, UserId, Emit, SocketEvent, Notification, NotificationType, KeyKind, key,
}
use ubuy_backend.Platform.{Env}
use ubuy_backend.Platform.World.{World, Result, Action, ok, err, ◌>>◌, ◌>>=◌, after, emit, skip}
use ubuy_backend.Auctions.Payment.{mark_auction_notified, schedule_winner_payment_lifecycle}
use ubuy_backend.Auctions.Push.{push}
use ubuy_backend.Notifications.{Input, store, create_notification}
use ubuy_backend.Platform.Calls.{add_job}
use ubuy_backend.Processor.{open_payment_window}

-- Telling and scheduling add to the events that have been sent.
abbrev pub Extends : List Emit → List Emit → Type 0
Extends before after = (rest : List Emit) × (after ≡ before ++ rest)

module _ (e : Env) where
  create_notification-emitted :
      (input : Input) (w : World) → (create_notification e input w).1.emitted ≡ w.emitted
  unfolding create_notification store
  create_notification-emitted input w = ground arith

  push-Extends : (input : Input) (w : World) → Extends w.emitted (push e input w).1.emitted
  unfolding push
  push-Extends input w = go (create_notification e input w) (create_notification-emitted input w)
    where
      go :
          (r : Result Notification × World)
          → r.1.emitted ≡ w.emitted
          → Extends w.emitted
              (((λ _. r) >>= λ n.
                  emit (Emit.to_user input.user_id (SocketEvent.notification_new n)))
                w).1.emitted
      go (ok n, w') h =
          (Emit.to_user input.user_id (SocketEvent.notification_new n) ∷ [], rw h refl)
      go (err x, w') h = ([], h ∙ sym (append-nil w.emitted))

  abbrev win_notice : AuctionId → UserId → Input
  win_notice i u = record {
    user_id = u;
    type = NotificationType.auction_won;
    title = "You won the auction";
    dedupe_key = some (key KeyKind.winner i u 0);
  }

  schedule-emitted :
      (i : AuctionId) (u : UserId) (w : World)
      → ((schedule_winner_payment_lifecycle e i u >> skip) w).1.emitted ≡ w.emitted
  unfolding schedule_winner_payment_lifecycle add_job
  schedule-emitted i u w = ground arith

  pub open_payment_window-Extends :
      (i : AuctionId) (o : Option UserId) (w : World)
      → Extends w.emitted (open_payment_window e i o w).1.emitted
  unfolding open_payment_window
  open_payment_window-Extends i none w = ([], sym (append-nil w.emitted))
  open_payment_window-Extends i (some u) w =
      go (push e (win_notice i u) w) (push-Extends (win_notice i u) w)
    where
      go :
          (r : Result ⊤ × World)
          → Extends w.emitted r.1.emitted
          → Extends w.emitted
              (((λ _. r) >> (schedule_winner_payment_lifecycle e i u >> skip)) w).1.emitted
      go (ok a, w') (rest, h) = (rest, schedule-emitted i u w' ∙ h)
      go (err x, w') h = h

  -- What a call leaves among the events, and then the mark.
  pub then_notified-emitted :
      (i : AuctionId) (m : Action ⊤) (w : World)
      → ((m >> mark_auction_notified e i) w).1.emitted ≡ (m w).1.emitted
  unfolding mark_auction_notified
  then_notified-emitted i m w = go (m w)
    where
      go :
          (r : Result ⊤ × World)
          → (((λ _. r) >> mark_auction_notified e i) w).1.emitted ≡ r.1.emitted
      go (ok a, w') = refl
      go (err x, w') = refl
