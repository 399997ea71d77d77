-- ===== src/Auctions/Frames.antt =====
-- What leaves the auction collection alone: notifications, socket events and the queue.
use ubuy_backend.Base.{ℕ, ◌≡◌, refl, ◌∙◌, List, [], ◌∷◌, Option, none, some, arith}
use ubuy_backend.Domain.{AuctionId, UserId, Auction, JobId}
use ubuy_backend.Platform.{Env}
use ubuy_backend.Platform.World.{World, Action, Result, ok, err, ◌>>=◌, for_all}
use ubuy_backend.Platform.Calls.{add_job}
use ubuy_backend.Notifications.{Input, create_notification}
use ubuy_backend.Auctions.Push.{push}
use ubuy_backend.Auctions.Payment.{clear_winner_payment_lifecycle_jobs, announce_payment}
use ubuy_backend.Auctions.Lifecycle.{
  announce_cancel, tell_bidders, clear_jobs_of, remove_scheduled_end_auction_job,
}
use ubuy_backend.Auctions.Winner.{announce_extension, announce_switch, NextBidder}

-- `m` leaves the auctions as they are, whether it throws or not.
abbrev pub Spares : {A : Type 0} → Action A → Type 0
Spares m = (w : World) → (m w).1.auctions ≡ w.auctions

pub for_all-Spares :
    {A : Type 0} (f : A → Action Unit) (xs : List A)
    → ((x : A) → Spares (f x))
    → Spares (for_all f xs)
unfolding for_all
for_all-Spares f [] h w = refl
for_all-Spares f (x ∷ xs) h w = for_all-Spares f xs h (f x w).1 ∙ h x w

-- What follows a call and spares the auctions leaves them as the call did.
pub bind-Spares_last :
    {A B : Type 0} (m : Action A) (f : A → Action B) (w : World)
    → ((a : A) → Spares (f a))
    → ((m >>= f) w).1.auctions ≡ (m w).1.auctions
bind-Spares_last {A} {B} m f w h = go (m w)
  where
    go : (r : Result A × World) → (◌>>=◌ {A = A} {B = B} (λ _. r) f w).1.auctions ≡ r.1.auctions
    go (ok a, w') = h a w'
    go (err x, w') = refl

module _ (e : Env) where
  pub create_notification-Spares : (input : Input) → Spares (create_notification e input)
  unfolding create_notification
  create_notification-Spares input w = ground arith

  pub push-Spares : (input : Input) → Spares (push e input)
  unfolding push
  push-Spares input w = ground arith

  pub add_job-Spares : (i : JobId) (delay : ℕ) → Spares (add_job e i delay)
  unfolding add_job
  add_job-Spares i delay w = ground arith

  pub clear_jobs-Spares :
      (i : AuctionId) (u : UserId) → Spares (clear_winner_payment_lifecycle_jobs e i u)
  unfolding clear_winner_payment_lifecycle_jobs
  clear_jobs-Spares i u w = refl

  pub clear_jobs_of-Spares : (i : AuctionId) (o : Option UserId) → Spares (clear_jobs_of e i o)
  unfolding clear_jobs_of
  clear_jobs_of-Spares i none w = refl
  clear_jobs_of-Spares i (some u) w = refl

  pub remove_scheduled_end_auction_job-Spares :
      (i : AuctionId) → Spares (remove_scheduled_end_auction_job e i)
  unfolding remove_scheduled_end_auction_job
  remove_scheduled_end_auction_job-Spares i w = refl

  pub announce_payment-Spares :
      (i : AuctionId) (u : UserId) (a : Auction) → Spares (announce_payment e i u a)
  unfolding announce_payment
  announce_payment-Spares i u a w = ground arith

  pub announce_extension-Spares :
      (i : AuctionId) (creator winner : UserId) → Spares (announce_extension e i creator winner)
  unfolding announce_extension
  announce_extension-Spares i creator winner w = ground arith

  pub announce_switch-Spares :
      (i : AuctionId) (creator winner : UserId) (next : NextBidder) (due_at : ℕ)
      → Spares (announce_switch e i creator winner next due_at)
  unfolding announce_switch
  announce_switch-Spares i creator winner next due_at w = ground arith

  tell_bidders-Spares : (i : AuctionId) (us : List UserId) → Spares (tell_bidders e i us)
  unfolding tell_bidders
  tell_bidders-Spares i us = for_all-Spares _ us (λ u. push-Spares _)

  pub announce_cancel-Spares : (i : AuctionId) (actor : UserId) → Spares (announce_cancel e i actor)
  unfolding announce_cancel
  announce_cancel-Spares i actor w = grind (arith, push-Spares, tell_bidders-Spares)
