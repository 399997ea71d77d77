-- ===== src/Http.antt =====
-- The requests to the controllers of auctions, users, payments, notifications, wishlists and the
-- profiles of auth under src/modules, as data, and how each is served. The lists that anybody may read are in Http/Auctions, the routes of auth
-- without a guard in Http/Auth.
pub mod Guard
pub mod Queries
pub mod Auctions
pub mod Others
pub mod Auth
pub mod Owned
pub mod Settled
use ubuy_backend.Base.{ℕ, Bool, true, false, Option, none, some, List, [], ◌∷◌, ⊤}
use ubuy_backend.Texts.{Text}
use ubuy_backend.Domain.{AuctionId, UserId, User, Auction, Bid, Notification, NotificationType}
use ubuy_backend.Platform.{Env, Sorter}
use ubuy_backend.Platform.World.{World, Action}
use ubuy_backend.Auctions.Lifecycle.{CreateAuctionDto, EndReply, CancelReply, BidStats}
use ubuy_backend.Auctions.Lists.{BidSummary, AuctionList, BiddedList}
use ubuy_backend.Auctions.Payment.{Confirmation}
use ubuy_backend.Auctions.Winner.{Decision, DecisionReply}
use ubuy_backend.Notifications.Listing.{IsLater, Listing}
use ubuy_backend.Payments.Cashfree.{Cashfree, CreateLink, LinkResponse}
use ubuy_backend.Payments.Webhook.{Payload}
use ubuy_backend.Wishlist.{Reply}
use ubuy_backend.Wishlist.Listing.{IsAddedLater, MyWishlist}
use ubuy_backend.System
use ubuy_backend.Http.Guard.{Token, answers}
use ubuy_backend.Http.Auctions.{
  post_auction, end_auction_now, post_cancel, delete_by_id, post_confirm_payment, place_auction_bid,
  post_payment_expiry_decision, get_my_bid_stats, get_my_created_auctions, get_my_bidded_auctions,
}
use ubuy_backend.Auth.Profile.{ProfileChange}
use ubuy_backend.Http.Auth.{get_profile_legacy_compatibility, patch_profile, get_profile}
use ubuy_backend.Http.Others.{
  create_cashfree_link, notify_payment, verify_cashfree_payment, get_payment_status,
  payment_webhook, list, unread_count, patch_read, patch_read_all, delete_read, delete_all,
  delete_the_one, post_wishlist, get_wishlist, delete_wishlist,
}

-- What the controllers have besides the services: the settings and the reading of queries.
pub record Site : Type 0 where
  pub cashfree : Cashfree
  pub secret : Option Text
  pub number : Text → Option ℕ
  pub lower : Text → Text

-- The requests to routes with a guard.
pub data UserRequest : Type 0 where
  posts_auction : CreateAuctionDto → UserRequest
  ends_now cancels deletes confirms : AuctionId → UserRequest
  bids : AuctionId → ℕ → UserRequest
  decides : AuctionId → Decision → UserRequest
  reads_stats : UserRequest
  lists_created : (page limit : Option Text) → (count : ℕ) → UserRequest
  lists_bidded :
      (summaries : UserId → List Bid → List BidSummary)
      → (winners : AuctionId → List Bid → Option UserId) → (page limit : Option Text) → UserRequest
  creates_link : CreateLink → UserRequest
  notifies : AuctionId → (phone : Option Text) → UserRequest
  -- Each query of a list orders documents of the same time in its own way.
  lists_notifications :
      Sorter IsLater → (page limit is_read : Option Text) → Option NotificationType → UserRequest
  counts_unread reads_all deletes_read deletes_all : UserRequest
  reads_one deletes_one : ℕ → UserRequest
  wishes unwishes : AuctionId → UserRequest
  lists_wishes : Sorter IsAddedLater → (page limit : Option Text) → UserRequest
  reads_profile_of : UserId → UserRequest
  updates_profile : ProfileChange → UserRequest
  reads_me : UserRequest

-- What the route of a request answers.
unfoldable pub AnswerOf : UserRequest → Type 0
AnswerOf (posts_auction i) = Auction
AnswerOf (ends_now i) = EndReply
AnswerOf (cancels i) = CancelReply
AnswerOf (deletes i) = ⊤
AnswerOf (confirms i) = Confirmation
AnswerOf (bids i x) = Auction
AnswerOf (decides i d) = DecisionReply
AnswerOf reads_stats = BidStats
AnswerOf (lists_created page limit n) = AuctionList
AnswerOf (lists_bidded summaries winners page limit) = BiddedList
AnswerOf (creates_link i) = LinkResponse
AnswerOf (notifies i phone) = LinkResponse
AnswerOf (lists_notifications newest page limit is_read type) = Listing
AnswerOf counts_unread = ℕ
AnswerOf reads_all = ℕ
AnswerOf deletes_read = ℕ
AnswerOf deletes_all = ℕ
AnswerOf (reads_one i) = Option Notification
AnswerOf (deletes_one i) = Bool
AnswerOf (wishes i) = Reply
AnswerOf (unwishes i) = Reply
AnswerOf (lists_wishes last_added page limit) = MyWishlist
AnswerOf (reads_profile_of i) = User
AnswerOf (updates_profile i) = User
AnswerOf reads_me = User

pub data Request : Type 0 where
  guarded : UserRequest → Request
  receives : (header : Option Text) → Payload → Request
  verifies_link checks_status : (link : Text) → Request

-- A request, or something that the server does by itself: a job, a bid on a socket, a commit of a
-- bid on a document that was read before, the passing of time.
pub data Happening : Type 0 where
  request : Token → Request → Happening
  other : System.Call → Happening

module _ (e : Env) (s : Site) where
  unfoldable pub serve_user : Token → (r : UserRequest) → Action (AnswerOf r)
  unfolding AnswerOf
  serve_user t (posts_auction dto) = post_auction e t dto
  serve_user t (ends_now i) = end_auction_now e t i
  serve_user t (cancels i) = post_cancel e t i
  serve_user t (deletes i) = delete_by_id e t i
  serve_user t (confirms i) = post_confirm_payment e t i
  serve_user t (bids i x) = place_auction_bid e t i x
  serve_user t (decides i d) = post_payment_expiry_decision e t i d
  serve_user t reads_stats = get_my_bid_stats e t
  serve_user t (lists_created page limit n) = get_my_created_auctions e s.number t page limit n
  serve_user t (lists_bidded summaries winners page limit) =
      get_my_bidded_auctions e s.number summaries winners t page limit
  serve_user t (creates_link body) = create_cashfree_link e s.cashfree t body
  serve_user t (notifies i phone) = notify_payment e s.cashfree t i phone
  serve_user t (lists_notifications newest page limit is_read type) =
      list e s.number s.lower newest t page limit is_read type
  serve_user t counts_unread = unread_count e t
  serve_user t reads_all = patch_read_all e t
  serve_user t deletes_read = delete_read e t
  serve_user t deletes_all = delete_all e t
  serve_user t (reads_one id) = patch_read e t id
  serve_user t (deletes_one id) = delete_the_one e t id
  serve_user t (wishes i) = post_wishlist e t i
  serve_user t (unwishes i) = delete_wishlist e t i
  serve_user t (lists_wishes last_added page limit) =
      get_wishlist e s.number last_added t page limit
  serve_user t (reads_profile_of i) = get_profile_legacy_compatibility e t i
  serve_user t (updates_profile body) = patch_profile e t body
  serve_user t reads_me = get_profile e t

  unfoldable pub serve : Token → Request → Action ⊤
  unfolding serve_user
  serve t (guarded r) = answers (serve_user t r)
  serve t (receives header body) = answers (payment_webhook e s.secret header body)
  serve t (verifies_link link) = answers (verify_cashfree_payment e s.cashfree link)
  serve t (checks_status link) = answers (get_payment_status e s.cashfree link)

  unfoldable pub happen : Happening → World → World
  unfolding serve
  happen (request t r) w = (serve t r w).1
  happen (other c) w = System.run e c w

  unfoldable pub happen_all : List Happening → World → World
  unfolding happen
  happen_all [] w = w
  happen_all (h ∷ hs) w = happen_all hs (happen h w)
