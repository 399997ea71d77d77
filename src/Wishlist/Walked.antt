-- ===== src/Wishlist/Walked.antt =====
-- Walking the pages of `getMyWishlist` of modules/wishlist/wishlist.service.ts.
use ubuy_backend.Base.{
  length-eq-count, count-and_true, ℕ, zero, suc, ◌*◌, ◌≡◌, ◌≤◌, ◌∙◌, refl, ap, Bool, true, false,
  ◌&&◌, Option, none, some, List, [], ◌∷◌, ◌++◌, ◌==◌, keep, first, count, count-keep, length,
  arith, if◌then◌else◌,
}
use ubuy_backend.Domain.{UserId, Auction, User, Wishlist}
use ubuy_backend.Platform.{Env, Sorter}
use ubuy_backend.Platform.World.{World, Result, ok, err}
use ubuy_backend.Pagination.{
  normalized_page-suc, normalized_page, normalized_limit, page_of, pages, pages_lem, take-all,
}
use ubuy_backend.Pagination.Ties.{HasNoTies, count-append, same_sorted_page}
use ubuy_backend.Wishlist.Listing.{
  IsAddedLater, Item, MyWishlist, item_of, joined, entries_of, my_wishlist, get_my_wishlist,
}
use ubuy_backend.Wishlist.Joined.{shown, all_shown, wishlist_items-all_shown}

abbrev pub items_of : Result MyWishlist → List Item
items_of (ok reply) = reply.wishlist
items_of (err x) = []

abbrev pub passes : (Item → Bool) → List User → Wishlist → Option Auction → Bool
passes q users x none = false
passes q users x (some a) = q (item_of x a (first (λ u. u.id == a.created_by) users))

-- The entry is shown as an item that passes the test.
abbrev pub shows : (Item → Bool) → World → Wishlist → Bool
shows q w x = passes q w.users x (first (λ a. a.id == x.auction_id) w.auctions)

count-joined :
    (q : Item → Bool) (users : List User) (x : Wishlist) (o : Option Auction)
    → count q (joined users x o) ≡ (if passes q users x o then 1 else 0)
count-joined q users x none = refl
count-joined q users x (some a) = omega arith

count-shown :
    (q : Item → Bool) (w : World) (x : Wishlist)
    → count q (shown w x) ≡ (if shows q w x then 1 else 0)
unfolding shown
count-shown q w x = count-joined q w.users x (first (λ a. a.id == x.auction_id) w.auctions)

count-all_shown :
    (q : Item → Bool) (w : World) (xs : List Wishlist)
    → count q (all_shown w xs) ≡ count (shows q w) xs
unfolding all_shown
count-all_shown q w [] = refl
count-all_shown q w (x ∷ xs) =
    omega (
      arith,
      count-append q (shown w x) (all_shown w xs),
      count-shown q w x,
      count-all_shown q w xs,
    )

-- No two entries of the user were added at the same time.
abbrev pub HasDistinctTimes : UserId → World → Type 0
HasDistinctTimes u w = (t : ℕ) → count (λ x. entries_of u x && x.created_at == t) w.wishlists ≤ 1

module _ (e : Env) (last_added : ℕ → Sorter IsAddedLater) (u : UserId) (limit : Option ℕ)
    (w : World) where
  -- The items of the pages 1 to n, one page after the other. Each page is the answer to a query of
  -- its own, which orders entries of the same time in a way of its own.
  abbrev pub walk : ℕ → List Item
  walk zero = []
  walk (suc n) =
      walk n ++ items_of (get_my_wishlist e (last_added (suc n)) u (some (suc n)) limit w).0

  abbrev own : List Wishlist
  own = keep (entries_of u) w.wishlists

  abbrev page_in : ℕ → ℕ → List Wishlist
  page_in order n = page_of n (normalized_limit limit) ((last_added order).sort own)

  own-HasNoTies : HasDistinctTimes u w → HasNoTies Wishlist.created_at own
  own-HasNoTies few t = rw (count-keep (λ x. x.created_at == t) (entries_of u) w.wishlists) (few t)

  -- A page shows its entries.
  page_items :
      (s : Sorter IsAddedLater) (page : ℕ) (total : ℕ) (entries : List Wishlist)
      → (my_wishlist e s page (normalized_limit limit) total entries w).wishlist
        ≡ all_shown w entries
  unfolding all_shown
  page_items s page total [] = refl
  page_items s page total (x ∷ xs) = wishlist_items-all_shown (x ∷ xs) w

  reply-all_shown :
      (n : ℕ)
      → items_of (get_my_wishlist e (last_added (suc n)) u (some (suc n)) limit w).0
        ≡ all_shown w (page_in (suc n) (suc n))
  unfolding get_my_wishlist
  reply-all_shown n =
      page_items (last_added (suc n)) (normalized_page (some (suc n)))
        (e.wishlists.count_documents (entries_of u) w.wishlists)
        (page_in (suc n) (normalized_page (some (suc n))))
      ∙ ap (λ p. all_shown w (page_in (suc n) p)) (normalized_page-suc n)

  count-walk :
      HasDistinctTimes u w
      → (n : ℕ) (q : Item → Bool)
      → count q (walk n)
        ≡ count (shows q w) (pages n (normalized_limit limit) ((last_added 0).sort own))
  count-walk few zero q = refl
  count-walk few (suc n) q =
      count-append q (walk n) _
      ∙ omega (
        arith,
        count-walk few n q,
        ap (count q) (reply-all_shown n),
        count-all_shown q w (page_in (suc n) (suc n)),
        same_sorted_page Wishlist.created_at (last_added (suc n)) (last_added 0) (shows q w) (suc n)
            (normalized_limit limit) own (own-HasNoTies few),
        count-append (shows q w) (pages n (normalized_limit limit) ((last_added 0).sort own))
            (page_in 0 (suc n)),
      )

  length-sorted : length ((last_added 0).sort own) ≡ count (entries_of u) w.wishlists
  length-sorted =
      length-eq-count _
      ∙ (last_added 0).count-sort (λ x. true) own
      ∙ count-keep (λ x. true) (entries_of u) w.wishlists
      ∙ count-and_true (entries_of u) w.wishlists

  -- If no two entries of the user were added at the same time, walking as many pages as hold the total
  -- of the user's entries shows, for every test on an item, as many items that pass it as the
  -- collection has entries of the user whose auction exists and whose item, made of the entry, this
  -- auction and the document of its seller, passes: no such entry is missing, none comes twice, and no
  -- other entry is shown.
  pub get_my_wishlist-walk :
      (n : ℕ) (q : Item → Bool)
      → HasDistinctTimes u w
      → count (entries_of u) w.wishlists ≤ n * normalized_limit limit
      → count q (walk n) ≡ count (λ x. entries_of u x && shows q w x) w.wishlists
  get_my_wishlist-walk n q few enough =
      count-walk few n q
      ∙ ap (count (shows q w)) (
          pages_lem n (normalized_limit limit) ((last_added 0).sort own)
          ∙ take-all (n * normalized_limit limit) ((last_added 0).sort own)
              (rw length-sorted enough))
      ∙ (last_added 0).count-sort (shows q w) own
      ∙ count-keep (shows q w) (entries_of u) w.wishlists
