-- ===== src/Http/Others.antt =====
-- The handlers of modules/payments/payments.controller.ts, modules/notifications/
-- notifications.controller.ts and modules/wishlist/wishlist.controller.ts, each with the guard of its
-- route.
use ubuy_backend.Base.{ℕ, Bool, Option}
use ubuy_backend.Texts.{Text}
use ubuy_backend.Domain.{AuctionId, Auction, Notification, NotificationType}
use ubuy_backend.Platform.{Env, Sorter}
use ubuy_backend.Platform.World.{Action, ◌>>=◌}
use ubuy_backend.Notifications.{
  get_unread_count, mark_as_read, mark_all_as_read, delete_read_notifications,
  delete_all_notifications, delete_notification,
}
use ubuy_backend.Notifications.Listing.{IsLater, Listing, list_notifications}
use ubuy_backend.Payments.Cashfree.{
  Cashfree, CreateLink, LinkResponse, verify_cashfree_payment_link, create_cashfree_payment_link,
  notify_payment_for_auction,
}
use ubuy_backend.Payments.Webhook.{Payload, WebhookReply, validate_webhook_secret, handle_webhook}
use ubuy_backend.Wishlist.{Reply, add_to_wishlist, remove_from_wishlist}
use ubuy_backend.Wishlist.Listing.{IsAddedLater, MyWishlist, get_my_wishlist}
use ubuy_backend.Http.Guard.{Token, use_guard, user_id_of}
use ubuy_backend.Http.Queries.{number_of, is_read_filter}

-- modules/payments/payments.controller.ts
module _ (e : Env) (c : Cashfree) where
  unfoldable pub create_cashfree_link : Token → CreateLink → Action LinkResponse
  unfolding use_guard
  create_cashfree_link token body =
      use_guard e token λ user. do u ← user_id_of user; create_cashfree_payment_link e c u body

  unfoldable pub notify_payment : Token → AuctionId → (phone : Option Text) → Action LinkResponse
  unfolding use_guard
  notify_payment token i phone =
      use_guard e token λ user. do u ← user_id_of user; notify_payment_for_auction e c u i phone

  -- Two routes.
  unfoldable pub verify_cashfree_payment : (link : Text) → Action Auction
  verify_cashfree_payment link = verify_cashfree_payment_link e c link

  unfoldable pub get_payment_status : (link : Text) → Action Auction
  get_payment_status link = verify_cashfree_payment_link e c link

module _ (e : Env) where
  -- The secret that is configured, and the header.
  unfoldable pub payment_webhook : (secret header : Option Text) → Payload → Action WebhookReply
  unfolding validate_webhook_secret
  payment_webhook secret header body =
      (λ w. (validate_webhook_secret secret header, w)) >>= λ _. handle_webhook e body

-- modules/notifications/notifications.controller.ts
module _ (e : Env) where
  -- The query's type is `none` where it is not one of the five names.
  unfoldable pub list :
      (number : Text → Option ℕ)
      → (lower : Text → Text) → Sorter IsLater
      → Token
      → (page limit is_read : Option Text) → Option NotificationType
      → Action Listing
  unfolding use_guard is_read_filter
  list number lower newest token page limit is_read type = use_guard e token λ user. do
    u ← user_id_of user
    list_notifications e newest (record {
      user_id = u;
      page = number_of number page;
      limit = number_of number limit;
      is_read = is_read_filter lower is_read;
      type = type;
    })

  unfoldable pub unread_count : Token → Action ℕ
  unfolding use_guard
  unread_count token = use_guard e token λ user. do u ← user_id_of user; get_unread_count e u

  unfoldable pub patch_read : Token → ℕ → Action (Option Notification)
  unfolding use_guard
  patch_read token id = use_guard e token λ user. do u ← user_id_of user; mark_as_read e u id

  unfoldable pub patch_read_all : Token → Action ℕ
  unfolding use_guard
  patch_read_all token = use_guard e token λ user. do u ← user_id_of user; mark_all_as_read e u

  unfoldable pub delete_read : Token → Action ℕ
  unfolding use_guard
  delete_read token =
      use_guard e token λ user. do u ← user_id_of user; delete_read_notifications e u

  unfoldable pub delete_all : Token → Action ℕ
  unfolding use_guard
  delete_all token = use_guard e token λ user. do u ← user_id_of user; delete_all_notifications e u

  unfoldable pub delete_the_one : Token → ℕ → Action Bool
  unfolding use_guard
  delete_the_one token id =
      use_guard e token λ user. do u ← user_id_of user; delete_notification e u id

-- modules/wishlist/wishlist.controller.ts
module _ (e : Env) where
  unfoldable pub post_wishlist : Token → AuctionId → Action Reply
  unfolding use_guard
  post_wishlist token i = use_guard e token λ user. do u ← user_id_of user; add_to_wishlist e u i

  unfoldable pub get_wishlist :
      (number : Text → Option ℕ)
      → Sorter IsAddedLater
      → Token
      → (page limit : Option Text) → Action MyWishlist
  unfolding use_guard
  get_wishlist number last_added token page limit = use_guard e token λ user. do
    u ← user_id_of user
    get_my_wishlist e last_added u (number_of number page) (number_of number limit)

  unfoldable pub delete_wishlist : Token → AuctionId → Action Reply
  unfolding use_guard
  delete_wishlist token i =
      use_guard e token λ user. do u ← user_id_of user; remove_from_wishlist e u i
