-- ===== src/Changes/Money.antt =====
-- The check of a payment link and the reading of a profile as changes of auctions.
use ubuy_backend.Base.{◌≡◌, refl, ap, Option, none, some, arith, keep}
use ubuy_backend.Texts.{Text}
use ubuy_backend.Domain.{AuctionId, UserId, User}
use ubuy_backend.Platform.{Env}
use ubuy_backend.Platform.World.{
  World, Action, Result, ok, err, pure, or_throw, user_not_found, ◌>>=◌, ◌>>◌,
}
use ubuy_backend.Users.{has_user_id, has_username, find_by_id, find_by_username}
use ubuy_backend.Auth.Keys.{Keys}
use ubuy_backend.Auth.Profile.{Identifier, user_id, username, public_profile, get_public_profile}
use ubuy_backend.Auctions.Lifecycle.{bid_stats}
use ubuy_backend.Changes.{here}
use ubuy_backend.Changes.Methods.{
  Respects, no_change, bind-Changes, bid_stats-Respects,
  confirm_winner_payment_by_provider-Respects,
}
use ubuy_backend.Payments.Settling.{process_payment-auctions}
use ubuy_backend.Payments.Webhook.{
  process_payment, processed, auction_of, emit_payment_success_notifications,
}
use ubuy_backend.Auctions.Payment.{confirm_winner_payment_by_provider}
use ubuy_backend.Payments.Cashfree.{Cashfree, check_link, settle_link, verify_cashfree_payment_link}

-- Two methods that begin alike and go on to the same state.
pub bind-same :
    {A B C : Type 0} (m : Action A) (f : A → Action B) (g : A → Action C) (w : World)
    → ((a : A) (w' : World) → (f a w').1 ≡ (g a w').1)
    → ((m >>= f) w).1 ≡ ((m >>= g) w).1
bind-same {A} {B} {C} m f g w h = go (m w)
  where
    go :
        (r : Result A × World)
        → (◌>>=◌ {A = A} {B = B} (λ _. r) f w).1 ≡ (◌>>=◌ {A = A} {B = C} (λ _. r) g w).1
    go (ok a, w') = h a w'
    go (err x, w') = refl

module _ (e : Env) (c : Cashfree) where
  pub check_link-same : (link : Text) (w : World) → (check_link e c link w).1 ≡ w
  unfolding check_link
  check_link-same link w = ground arith

  -- The state is that of a payment that the webhook calls successful.
  pub settle_link-same :
      (i : AuctionId) (u : UserId) (w : World)
      → (settle_link e c i u w).1 ≡ (process_payment e i (some u) w).1
  unfolding settle_link process_payment
  settle_link-same i u w =
      bind-same (confirm_winner_payment_by_provider e i (some u))
        (λ a. emit_payment_success_notifications e i >> pure (auction_of a))
        (λ a. emit_payment_success_notifications e i >> pure (processed (auction_of a))) w
        (λ a. λ w'.
          bind-same (emit_payment_success_notifications e i) (λ _. pure (auction_of a))
            (λ _. pure (processed (auction_of a))) w' (λ _ w''. refl))

  settle_link-Respects : (i : AuctionId) (u : UserId) → Respects e (settle_link e c i u)
  settle_link-Respects i u w =
      rw (settle_link-same i u w, process_payment-auctions e i (some u) w)
        (confirm_winner_payment_by_provider-Respects e i (some u) w)

  pub verify_cashfree_payment_link-Respects :
      (link : Text) → Respects e (verify_cashfree_payment_link e c link)
  unfolding verify_cashfree_payment_link
  verify_cashfree_payment_link-Respects link w =
      bind-Changes e (check_link e c link) (λ found. settle_link e c found.0 found.1) w
        (no_change e (ap World.auctions (check_link-same link w)))
        (λ found. settle_link-Respects found.0 found.1)

module _ (e : Env) (k : Keys) where
  profile-Respects :
      (o : Option User)
      → Respects e (
          or_throw o user_not_found >>= λ u.
          bid_stats e u.id (keep e.is_valid_id u.bidded_auctions) >>= λ stats.
          pure (public_profile e k u stats))
  profile-Respects none w = here
  profile-Respects (some u) w =
      bind-Changes e (bid_stats e u.id (keep e.is_valid_id u.bidded_auctions))
        (λ stats. pure (public_profile e k u stats)) w
        (bid_stats-Respects e u.id (keep e.is_valid_id u.bidded_auctions) w) (λ stats w. here)

  pub get_public_profile-Respects : (who : Identifier) → Respects e (get_public_profile e k who)
  unfolding get_public_profile find_by_id find_by_username
  get_public_profile-Respects (user_id i) w =
      profile-Respects (e.users.find_one (has_user_id i) w.users) w
  get_public_profile-Respects (username name) w =
      profile-Respects (e.users.find_one (has_username name) w.users) w
