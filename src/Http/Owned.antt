-- ===== src/Http/Owned.antt =====
-- What a request to a guarded route does, and for whom.
use ubuy_backend.Base.{◌≡◌}
use ubuy_backend.Domain.{UserId}
use ubuy_backend.Platform.{Env}
use ubuy_backend.Platform.World.{World, Action}
use ubuy_backend.Auctions.Lifecycle.{
  create, request_immediate_end, cancel_auction, delete_auction, get_bid_stats_for_user,
}
use ubuy_backend.Auctions.Lists.{find_created_by_user, find_bidded_by_user}
use ubuy_backend.Auctions.Payment.{confirm_winner_payment}
use ubuy_backend.Auctions.Winner.{handle_payment_expiry_decision}
use ubuy_backend.Bids.{place_bid}
use ubuy_backend.Notifications.{
  get_unread_count, mark_as_read, mark_all_as_read, delete_read_notifications,
  delete_all_notifications, delete_notification,
}
use ubuy_backend.Notifications.Listing.{list_notifications}
use ubuy_backend.Payments.Cashfree.{create_cashfree_payment_link, notify_payment_for_auction}
use ubuy_backend.Wishlist.{add_to_wishlist, remove_from_wishlist}
use ubuy_backend.Wishlist.Listing.{get_my_wishlist}
use ubuy_backend.Http.{
  Site, UserRequest, AnswerOf, serve_user, posts_auction, ends_now, cancels, deletes, confirms,
  bids, decides, reads_stats, lists_created, lists_bidded, creates_link, notifies,
  lists_notifications, counts_unread, reads_all, deletes_read, deletes_all, reads_one, deletes_one,
  wishes, unwishes, lists_wishes, reads_profile_of, updates_profile, reads_me,
}
use ubuy_backend.Http.Auctions.{
  post_auction, end_auction_now, post_cancel, delete_by_id, post_confirm_payment, place_auction_bid,
  post_payment_expiry_decision, get_my_bid_stats, get_my_created_auctions, get_my_bidded_auctions,
}
use ubuy_backend.Auth.Profile.{get_profile_by_id, update_profile}
use ubuy_backend.Http.Auth.{
  own_profile, get_profile_legacy_compatibility, patch_profile, get_profile,
}
use ubuy_backend.Http.Guard.{Token, use_guard_lem, verified_user, for_user}
use ubuy_backend.Http.Others.{
  create_cashfree_link, notify_payment, list, unread_count, patch_read, patch_read_all, delete_read,
  delete_all, delete_the_one, post_wishlist, get_wishlist, delete_wishlist,
}
use ubuy_backend.Http.Queries.{number_of, is_read_filter}

module _ (e : Env) (s : Site) where
  -- The method of the service that a request of a user stands for.
  unfoldable pub act : UserId → (r : UserRequest) → Action (AnswerOf r)
  unfolding AnswerOf
  act u (posts_auction dto) = (create e dto u)
  act u (ends_now i) = (request_immediate_end e i u)
  act u (cancels i) = (cancel_auction e i u)
  act u (deletes i) = (delete_auction e i u)
  act u (confirms i) = (confirm_winner_payment e i u)
  act u (bids i x) = (place_bid e u i x)
  act u (decides i d) = (handle_payment_expiry_decision e i u d)
  act u reads_stats = (get_bid_stats_for_user e u)
  act u (lists_created page limit n) =
      (find_created_by_user e u (number_of s.number page) (number_of s.number limit) n)
  act u (lists_bidded summaries winners page limit) =
      (find_bidded_by_user e summaries winners u (number_of s.number page)
        (number_of s.number limit))
  act u (creates_link body) = (create_cashfree_payment_link e s.cashfree u body)
  act u (notifies i phone) = (notify_payment_for_auction e s.cashfree u i phone)
  act u (lists_notifications newest page limit is_read type) =
      (list_notifications e newest (record {
        user_id = u;
        page = number_of s.number page;
        limit = number_of s.number limit;
        is_read = is_read_filter s.lower is_read;
        type = type;
      }))
  act u counts_unread = (get_unread_count e u)
  act u reads_all = (mark_all_as_read e u)
  act u deletes_read = (delete_read_notifications e u)
  act u deletes_all = (delete_all_notifications e u)
  act u (reads_one id) = (mark_as_read e u id)
  act u (deletes_one id) = (delete_notification e u id)
  act u (wishes i) = (add_to_wishlist e u i)
  act u (unwishes i) = (remove_from_wishlist e u i)
  act u (lists_wishes last_added page limit) =
      (get_my_wishlist e last_added u (number_of s.number page) (number_of s.number limit))
  act u (reads_profile_of i) = (own_profile e i u)
  act u (updates_profile body) = (update_profile e u body)
  act u reads_me = (get_profile_by_id e u)

module _ (e : Env) (s : Site) (t : Token) (w : World) where
  pub serve_user_lem :
      (r : UserRequest) → serve_user e s t r w ≡ for_user (verified_user e t w) (λ u. act e s u r) w
  unfolding AnswerOf serve_user act post_auction end_auction_now post_cancel delete_by_id
      post_confirm_payment place_auction_bid post_payment_expiry_decision get_my_bid_stats
      get_my_created_auctions get_my_bidded_auctions create_cashfree_link notify_payment list
      unread_count patch_read patch_read_all delete_read delete_all delete_the_one post_wishlist
      get_wishlist delete_wishlist get_profile_legacy_compatibility patch_profile get_profile
  serve_user_lem (posts_auction dto) = use_guard_lem e t (λ u. create e dto u) w
  serve_user_lem (ends_now i) = use_guard_lem e t (λ u. request_immediate_end e i u) w
  serve_user_lem (cancels i) = use_guard_lem e t (λ u. cancel_auction e i u) w
  serve_user_lem (deletes i) = use_guard_lem e t (λ u. delete_auction e i u) w
  serve_user_lem (confirms i) = use_guard_lem e t (λ u. confirm_winner_payment e i u) w
  serve_user_lem (bids i x) = use_guard_lem e t (λ u. place_bid e u i x) w
  serve_user_lem (decides i d) = use_guard_lem e t (λ u. handle_payment_expiry_decision e i u d) w
  serve_user_lem reads_stats = use_guard_lem e t (λ u. get_bid_stats_for_user e u) w
  serve_user_lem (lists_created page limit n) =
      use_guard_lem e t
        (λ u. find_created_by_user e u (number_of s.number page) (number_of s.number limit) n) w
  serve_user_lem (lists_bidded summaries winners page limit) =
      use_guard_lem e t
        (λ u.
          find_bidded_by_user e summaries winners u (number_of s.number page)
            (number_of s.number limit))
        w
  serve_user_lem (creates_link body) =
      use_guard_lem e t (λ u. create_cashfree_payment_link e s.cashfree u body) w
  serve_user_lem (notifies i phone) =
      use_guard_lem e t (λ u. notify_payment_for_auction e s.cashfree u i phone) w
  serve_user_lem (lists_notifications newest page limit is_read type) =
      use_guard_lem e t
        (λ u. list_notifications e newest (record {
          user_id = u;
          page = number_of s.number page;
          limit = number_of s.number limit;
          is_read = is_read_filter s.lower is_read;
          type = type;
        }))
        w
  serve_user_lem counts_unread = use_guard_lem e t (λ u. get_unread_count e u) w
  serve_user_lem reads_all = use_guard_lem e t (λ u. mark_all_as_read e u) w
  serve_user_lem deletes_read = use_guard_lem e t (λ u. delete_read_notifications e u) w
  serve_user_lem deletes_all = use_guard_lem e t (λ u. delete_all_notifications e u) w
  serve_user_lem (reads_one id) = use_guard_lem e t (λ u. mark_as_read e u id) w
  serve_user_lem (deletes_one id) = use_guard_lem e t (λ u. delete_notification e u id) w
  serve_user_lem (wishes i) = use_guard_lem e t (λ u. add_to_wishlist e u i) w
  serve_user_lem (unwishes i) = use_guard_lem e t (λ u. remove_from_wishlist e u i) w
  serve_user_lem (lists_wishes last_added page limit) =
      use_guard_lem e t
        (λ u. get_my_wishlist e last_added u (number_of s.number page) (number_of s.number limit)) w
  serve_user_lem (reads_profile_of i) = use_guard_lem e t (λ u. own_profile e i u) w
  serve_user_lem (updates_profile body) = use_guard_lem e t (λ u. update_profile e u body) w
  serve_user_lem reads_me = use_guard_lem e t (λ u. get_profile_by_id e u) w
