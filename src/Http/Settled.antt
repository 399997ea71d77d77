-- ===== src/Http/Settled.antt =====
-- What no sequence of requests can break, whatever else the server does in between.
use ubuy_backend.Base.{◌≡◌, ap, some, none, Option, List, [], ◌∷◌, arith, ⊤}
use ubuy_backend.Texts.{Text}
use ubuy_backend.Domain.{AuctionId, UserId, User, Auction, PaymentStatus}
use ubuy_backend.Platform.{Env}
use ubuy_backend.Platform.World.{World, Result, ok, err, ◌>>=◌}
use ubuy_backend.Platform.Store.{lookup}
use ubuy_backend.Changes.{Changes, here}
use ubuy_backend.Changes.Invariant.{AllSound, StaysSettled, Changes-IsSound, settled_is_final}
use ubuy_backend.Changes.Methods.{
  Respects, no_change, trans, create-Respects, request_immediate_end-Respects,
  cancel_auction-Respects, delete_auction-Respects, get_bid_stats_for_user-Respects,
  confirm_winner_payment-Respects,
}
use ubuy_backend.Changes.Switching.{handle_payment_expiry_decision-Respects}
use ubuy_backend.Changes.Bidding.{place_bid-Respects}
use ubuy_backend.Changes.Lists.{find_created_by_user-Respects, find_bidded_by_user-Respects}
use ubuy_backend.Changes.Money.{verify_cashfree_payment_link-Respects}
use ubuy_backend.Changes.Webhook.{handle_webhook-Respects}
use ubuy_backend.System.Settled.{run-Changes}
use ubuy_backend.Payments.Cashfree.{
  Cashfree, CreateLink, normalized_phone, create_cashfree_payment_link, notify_payment_for_auction,
}
use ubuy_backend.Payments.Webhook.{Payload, validate_webhook_secret, handle_webhook}
use ubuy_backend.Notifications.{
  get_unread_count, mark_as_read, mark_all_as_read, delete_read_notifications,
  delete_all_notifications, delete_notification,
}
use ubuy_backend.Notifications.Listing.{list_notifications}
use ubuy_backend.Auth.Profile.{ProfileChange, get_profile_by_id, update_profile}
use ubuy_backend.Users.{find_by_id, find_by_username, save_named}
use ubuy_backend.Http.Auth.{own_profile}
use ubuy_backend.Wishlist.Listing.{get_my_wishlist}
use ubuy_backend.Wishlist.{add_to_wishlist, remove_from_wishlist}
use ubuy_backend.Http.{
  Site, UserRequest, AnswerOf, Request, Happening, request, other, serve, happen, happen_all,
  posts_auction, ends_now, cancels, deletes, confirms, bids, decides, reads_stats, lists_created,
  lists_bidded, creates_link, notifies, lists_notifications, counts_unread, reads_all, deletes_read,
  deletes_all, reads_one, deletes_one, wishes, unwishes, lists_wishes, guarded, reads_profile_of,
  updates_profile, reads_me, receives, verifies_link, checks_status,
}
use ubuy_backend.Http.Guard.{Token, for_user, verified_user}
use ubuy_backend.Http.Owned.{act, serve_user_lem}
use ubuy_backend.Http.Others.{payment_webhook, verify_cashfree_payment, get_payment_status}
use ubuy_backend.Http.Queries.{number_of}

module _ (e : Env) where
  link-same :
      (c : Cashfree) (u : UserId) (body : CreateLink) (w : World)
      → (create_cashfree_payment_link e c u body w).1 ≡ w
  unfolding create_cashfree_payment_link
  link-same c u body w = ground arith

  notified-Respects :
      (c : Cashfree) (u : UserId) (i : AuctionId) (phone : Option Text)
      → Respects e (notify_payment_for_auction e c u i phone)
  unfolding notify_payment_for_auction
  notified-Respects c u i phone w = no_change e (
      ap World.auctions (
        link-same c u
          (record {
            auction_id = i;
            customer_phone = normalized_phone e c phone;
            send_sms = none;
            send_email = none;
            return_url = none;
            notify_url = none;
          })
          w))

  get_profile_by_id-same :
      (i : UserId) (w : World) → (get_profile_by_id e i w).1.auctions ≡ w.auctions
  unfolding get_profile_by_id find_by_id
  get_profile_by_id-same i w = ground arith

  own_profile-same : (i u : UserId) (w : World) → (own_profile e i u w).1.auctions ≡ w.auctions
  unfolding own_profile
  own_profile-same i u w = ground (arith, get_profile_by_id-same i w)

  update_profile-same :
      (u : UserId) (body : ProfileChange) (w : World)
      → (update_profile e u body w).1.auctions ≡ w.auctions
  unfolding update_profile find_by_id find_by_username save_named
  update_profile-same u body w = ground arith

  add-same :
      (u : UserId) (i : AuctionId) (w : World) → (add_to_wishlist e u i w).1.auctions ≡ w.auctions
  unfolding add_to_wishlist
  add-same u i w = ground arith

  remove-same :
      (u : UserId) (i : AuctionId) (w : World)
      → (remove_from_wishlist e u i w).1.auctions ≡ w.auctions
  unfolding remove_from_wishlist
  remove-same u i w = ground arith

  webhook-Respects :
      (secret header : Option Text) (body : Payload)
      → Respects e (payment_webhook e secret header body)
  unfolding payment_webhook
  webhook-Respects secret header body w = go (validate_webhook_secret secret header)
    where
      go :
          (r : Result ⊤)
          → Changes e w.auctions
              (◌>>=◌ {A = ⊤} (λ w. (r, w)) (λ _. handle_webhook e body) w).1.auctions
      go (ok a) = handle_webhook-Respects e body w
      go (err x) = here

module _ (e : Env) (s : Site) where
  act-Respects : (u : UserId) (r : UserRequest) → Respects e (act e s u r)
  unfolding AnswerOf act list_notifications get_my_wishlist get_unread_count mark_as_read
      mark_all_as_read delete_all_notifications delete_read_notifications delete_notification
  act-Respects u (posts_auction dto) w = create-Respects e dto u w
  act-Respects u (ends_now i) w = request_immediate_end-Respects e i u w
  act-Respects u (cancels i) w = cancel_auction-Respects e i u w
  act-Respects u (deletes i) w = delete_auction-Respects e i u w
  act-Respects u (confirms i) w = confirm_winner_payment-Respects e i u w
  act-Respects u (bids i x) w = place_bid-Respects e u i x w
  act-Respects u (decides i d) w = handle_payment_expiry_decision-Respects e i u d w
  act-Respects u reads_stats w = get_bid_stats_for_user-Respects e u w
  act-Respects u (lists_created page limit n) w =
      find_created_by_user-Respects e u (number_of s.number page) (number_of s.number limit) n w
  act-Respects u (lists_bidded summaries winners page limit) w =
      find_bidded_by_user-Respects e summaries winners u (number_of s.number page)
        (number_of s.number limit) w
  act-Respects u (creates_link body) w =
      no_change e (ap World.auctions (link-same e s.cashfree u body w))
  act-Respects u (notifies i phone) w = notified-Respects e s.cashfree u i phone w
  act-Respects u (lists_notifications newest page limit is_read type) w = here
  act-Respects u counts_unread w = here
  act-Respects u reads_all w = here
  act-Respects u deletes_read w = here
  act-Respects u deletes_all w = here
  act-Respects u (reads_one id) w = here
  act-Respects u (deletes_one id) w = here
  act-Respects u (wishes i) w = no_change e (add-same e u i w)
  act-Respects u (unwishes i) w = no_change e (remove-same e u i w)
  act-Respects u (lists_wishes last_added page limit) w = here
  act-Respects u (reads_profile_of i) w = no_change e (own_profile-same e i u w)
  act-Respects u (updates_profile body) w = no_change e (update_profile-same e u body w)
  act-Respects u reads_me w = no_change e (get_profile_by_id-same e u w)

  for_user-Respects :
      (o : Option User) (r : UserRequest) → Respects e (for_user o (λ u. act e s u r))
  unfolding for_user
  for_user-Respects none r w = here
  for_user-Respects (some u) r w = act-Respects u.id r w

  serve-Respects : (t : Token) (r : Request) → Respects e (serve e s t r)
  unfolding serve verify_cashfree_payment get_payment_status
  serve-Respects t (guarded r) w =
      rw (serve_user_lem e s t w r) (for_user-Respects (verified_user e t w) r w)
  serve-Respects t (receives header body) w = webhook-Respects e s.secret header body w
  serve-Respects t (verifies_link link) w =
      verify_cashfree_payment_link-Respects e s.cashfree link w
  serve-Respects t (checks_status link) w =
      verify_cashfree_payment_link-Respects e s.cashfree link w

  happen_all-Changes :
      (hs : List Happening) (w : World) → Changes e w.auctions (happen_all e s hs w).auctions
  unfolding happen_all
  happen_all-Changes [] w = here
  happen_all-Changes (request t r ∷ hs) w =
      trans e (serve-Respects t r w) (happen_all-Changes hs (happen e s (request t r) w))
  happen_all-Changes (other c ∷ hs) w =
      trans e (run-Changes e c w) (happen_all-Changes hs (happen e s (other c) w))

  -- From a collection in which every auction with a winner has ended and every auction that is paid
  -- for has a winner, any sequence of requests with any tokens, between which jobs run, bids come in
  -- on sockets and time passes, leads to a collection of which the same holds, and in which an
  -- auction that was paid for is still there, paid and ended, with the same winner, highest bidder
  -- and price.
  pub happen_all-settled :
      (hs : List Happening) (w : World)
      → AllSound e w.auctions
      → AllSound e (happen_all e s hs w).auctions
        × ((i : AuctionId) (a : Auction)
            → lookup e i w.auctions ≡ some a
            → a.payment_status ≡ PaymentStatus.paid
            → StaysSettled e i a (happen_all e s hs w).auctions)
  happen_all-settled hs w h = (
    Changes-IsSound e w.auctions (happen_all e s hs w).auctions h (happen_all-Changes hs w),
    (λ i a.
        settled_is_final e i a w.auctions (happen_all e s hs w).auctions h
          (happen_all-Changes hs w)),
  )
