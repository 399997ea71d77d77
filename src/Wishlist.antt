-- ===== src/Wishlist.antt =====
-- modules/wishlist/wishlist.service.ts: adding to and removing from a wishlist. The reply of a
-- method is its message.
pub mod Membership
pub mod Listing
pub mod Joined
pub mod Walked
use ubuy_backend.Base.{ℕ, Bool, not, ◌&&◌, Option, none, some, ◌==◌, is_none, ⊤}
use ubuy_backend.Domain.{AuctionId, UserId, Wishlist}
use ubuy_backend.Platform.{Env}
use ubuy_backend.Platform.Calls.{find_auction}
use ubuy_backend.Platform.World.{
  World, Action, Result, ok, err, invalid_auction_id, auction_not_found, wishlist_entry_not_found,
  gets, pure, throw, or_throw, throw_if, modify, ◌>>=◌, ◌>>◌,
}

pub data Reply : Type 0 where
  already_there added removed : Reply

-- The filter `{ userId, auctionId }`.
abbrev pub is_entry : UserId → AuctionId → Wishlist → Bool
is_entry u i x = x.user_id == u && x.auction_id == i

module _ (e : Env) where
  unfoldable pub ensure_valid_auction_id : AuctionId → Action ⊤
  ensure_valid_auction_id i = throw_if (not (e.is_valid_id i)) invalid_auction_id

  -- With the answer of `findOne` in hand.
  unfoldable pub add_unless_there : UserId → AuctionId → Option Wishlist → Action Reply
  add_unless_there u i (some x) = pure already_there
  add_unless_there u i none = do
    modify λ w. record w {
      wishlists =
          e.wishlists.create (record { user_id = u; auction_id = i; created_at = w.now })
            w.wishlists;
    }
    pure added

  unfoldable pub add_to_wishlist : UserId → AuctionId → Action Reply
  unfolding ensure_valid_auction_id add_unless_there
  add_to_wishlist u i = do
    ensure_valid_auction_id i
    auction ← or_throw (← find_auction e i) auction_not_found
    existing ← gets λ w. e.wishlists.find_one (is_entry u i) w.wishlists
    add_unless_there u i existing

  -- `findOneAndDelete`
  unfoldable pub take_entry : UserId → AuctionId → Action (Option Wishlist)
  take_entry u i w =
      let (deleted, c) = e.wishlists.find_one_and_delete (is_entry u i) w.wishlists in
      (ok deleted, record w { wishlists = c })

  unfoldable pub remove_from_wishlist : UserId → AuctionId → Action Reply
  unfolding ensure_valid_auction_id take_entry
  remove_from_wishlist u i = do
    ensure_valid_auction_id i
    deleted ← or_throw (← take_entry u i) wishlist_entry_not_found
    pure removed
