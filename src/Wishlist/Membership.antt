-- ===== src/Wishlist/Membership.antt =====
-- A wishlist holds an auction at most once.
use ubuy_backend.Base.{
  ℕ, ◌+◌, ◌-◌, ◌≡◌, ◌≤◌, refl, Bool, true, none, List, [], ◌∷◌, ◌++◌, arith, count, first,
  remove_first, is_some,
}
use ubuy_backend.Domain.{AuctionId, UserId, Wishlist}
use ubuy_backend.Platform.{Env}
use ubuy_backend.Platform.World.{World, ok, err, wishlist_entry_not_found}
use ubuy_backend.Wishlist.{
  Reply, removed, is_entry, ensure_valid_auction_id, add_unless_there, add_to_wishlist, take_entry,
  remove_from_wishlist,
}

-- How often the auction is on the user's list.
abbrev pub entries : UserId → AuctionId → World → ℕ
entries u i w = count (is_entry u i) w.wishlists

entries-snoc :
    (u : UserId) (i : AuctionId) (x : Wishlist) (c : List Wishlist)
    → is_entry u i x ≡ true
    → count (is_entry u i) (c ++ x ∷ []) ≡ count (is_entry u i) c + 1
entries-snoc u i x [] h = ground arith
entries-snoc u i x (y ∷ c) h = ground (arith, entries-snoc u i x c h)

first-none : (p : Wishlist → Bool) (c : List Wishlist) → first p c ≡ none → count p c ≡ 0
first-none p [] h = refl
first-none p (y ∷ c) h = ground (arith, first-none p c)

first-some : (p : Wishlist → Bool) (c : List Wishlist) → is_some (first p c) ≡ true → 1 ≤ count p c
first-some p [] h = cc
first-some p (y ∷ c) h = ground (arith, first-some p c)

count-remove_first :
    (p : Wishlist → Bool) (c : List Wishlist) → count p (remove_first p c) ≡ count p c - 1
count-remove_first p [] = refl
count-remove_first p (y ∷ c) = ground (arith, count-remove_first p c)

module _ (e : Env) where
  -- If the auction is on the list of the user at most once and `addToWishlist` answers, the
  -- auction is then on it exactly once.
  pub add_to_wishlist-once :
      (u : UserId) (i : AuctionId) (w : World) (r : Reply)
      → entries u i w ≤ 1
      → (add_to_wishlist e u i w).0 ≡ ok r
      → entries u i (add_to_wishlist e u i w).1 ≡ 1
  unfolding add_to_wishlist ensure_valid_auction_id add_unless_there
  add_to_wishlist-once u i w r few okay = ground (
    arith,
    e.wishlists.find_one_lem (is_entry u i) w.wishlists,
    first-none (is_entry u i) w.wishlists,
    first-some (is_entry u i) w.wishlists,
    e.wishlists.create_lem (record { user_id = u; auction_id = i; created_at = w.now }) w.wishlists,
    entries-snoc u i (record { user_id = u; auction_id = i; created_at = w.now }) w.wishlists,
  )

  -- With a valid id, `removeFromWishlist` takes one entry of the auction off the user's list, if there
  -- is one, and it answers if there was one and throws "entry not found" if there was none.
  pub remove_from_wishlist_lem :
      (u : UserId) (i : AuctionId) (w : World)
      → e.is_valid_id i ≡ true
      → (entries u i (remove_from_wishlist e u i w).1 ≡ entries u i w - 1)
        × (1 ≤ entries u i w → (remove_from_wishlist e u i w).0 ≡ ok removed)
        × (entries u i w ≡ 0 → (remove_from_wishlist e u i w).0 ≡ err wishlist_entry_not_found)
  unfolding remove_from_wishlist ensure_valid_auction_id take_entry
  remove_from_wishlist_lem u i w valid = ground (
    arith,
    e.wishlists.find_one_and_delete_lem (is_entry u i) w.wishlists,
    first-none (is_entry u i) w.wishlists,
    first-some (is_entry u i) w.wishlists,
    count-remove_first (is_entry u i) w.wishlists,
  )
