-- ===== src/Wishlist/Listing.antt =====
-- `getMyWishlist` of modules/wishlist/wishlist.service.ts: a page of the entries of a user, joined
-- with their auctions and the sellers of these. The sorted query is a parameter, `last_added`.
use ubuy_backend.Base.{
  ℕ, ◌≤◌, Bool, Option, none, some, List, [], ◌∷◌, ◌++◌, ◌==◌, keep, first, map,
}
use ubuy_backend.Texts.{Text}
use ubuy_backend.Domain.{AuctionId, UserId, Auction, User, Wishlist}
use ubuy_backend.Platform.{Env, Sorter}
use ubuy_backend.Platform.World.{World, Action, ok}
use ubuy_backend.Pagination.{normalized_page, normalized_limit, page_of}
use ubuy_backend.Auctions.Lifecycle.{contains}
use ubuy_backend.Auctions.Lists.{ceil_div}

-- `sort({ createdAt: -1 })`
abbrev pub IsAddedLater : Wishlist → Wishlist → Type 0
IsAddedLater a b = b.created_at ≤ a.created_at

-- A seller whose document is missing has null for a username and for an email.
pub record Seller : Type 0 where
  pub id : UserId
  pub username : Option Text
  pub email : Option Text

pub record Item : Type 0 where
  pub user_id : UserId
  pub auction_id : AuctionId
  pub added_at : ℕ
  pub auction : Auction
  pub seller : Seller

pub record MyWishlist : Type 0 where
  pub page : ℕ
  pub limit : ℕ
  pub total : ℕ
  pub total_pages : ℕ
  pub wishlist : List Item

abbrev pub seller_of : UserId → Option User → Seller
seller_of created_by none = record { id = created_by; username = none; email = none }
seller_of created_by (some u) = record { id = u.id; username = u.username; email = some u.email }

abbrev pub item_of : Wishlist → Auction → Option User → Item
item_of x a seller = record {
  user_id = x.user_id;
  auction_id = x.auction_id;
  added_at = x.created_at;
  auction = a;
  seller = seller_of a.created_by seller;
}

-- An entry whose auction is missing is dropped.
abbrev pub joined : List User → Wishlist → Option Auction → List Item
joined sellers x none = []
joined sellers x (some a) = item_of x a (first (λ u. u.id == a.created_by) sellers) ∷ []

abbrev pub join_all : List Auction → List User → List Wishlist → List Item
join_all auctions sellers [] = []
join_all auctions sellers (x ∷ xs) =
    joined sellers x (first (λ a. a.id == x.auction_id) auctions) ++ join_all auctions sellers xs

-- The two queries by `$in` and the join. An id that stands twice in the list changes nothing.
unfoldable pub wishlist_items : List Wishlist → World → List Item
wishlist_items entries w =
    let auction_ids = map (λ (x : Wishlist). x.auction_id) entries in
    let auctions = keep (λ a. contains auction_ids a.id) w.auctions in
    let seller_ids = map (λ (a : Auction). a.created_by) auctions in
    let sellers = keep (λ (u : User). contains seller_ids u.id) w.users in
    join_all auctions sellers entries

abbrev pub entries_of : UserId → Wishlist → Bool
entries_of u x = x.user_id == u

-- `last_added` is the order of this one query. Entries of the same time come in any order in it, which
-- another query need not keep.
module _ (e : Env) (last_added : Sorter IsAddedLater) where
  -- The reply for a page that is empty, and for one that is not.
  abbrev pub my_wishlist : (page limit total : ℕ) → List Wishlist → World → MyWishlist
  my_wishlist page limit total [] w = record {
    page = page;
    limit = limit;
    total = total;
    total_pages = ceil_div total limit;
    wishlist = [];
  }
  my_wishlist page limit total (x ∷ xs) w = record {
    page = page;
    limit = limit;
    total = total;
    total_pages = ceil_div total limit;
    wishlist = wishlist_items (x ∷ xs) w;
  }

  unfoldable pub get_my_wishlist : UserId → (page limit : Option ℕ) → Action MyWishlist
  unfolding wishlist_items
  get_my_wishlist u page limit w =
      let total = e.wishlists.count_documents (entries_of u) w.wishlists in
      let entries =
        page_of (normalized_page page) (normalized_limit limit)
          (last_added.sort (keep (entries_of u) w.wishlists)) in
      (ok (my_wishlist (normalized_page page) (normalized_limit limit) total entries w), w)
