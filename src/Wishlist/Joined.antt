-- ===== src/Wishlist/Joined.antt =====
-- The join of a page in `getMyWishlist` of modules/wishlist/wishlist.service.ts.
use ubuy_backend.Base.{
  or_true, ℕ, ◌≡◌, ◌∙◌, refl, sym, ap, subst, Bool, true, Option, none, some, List, [], ◌∷◌, ◌++◌,
  ◌==◌, keep, first, map, arith, inl, inr, Bool-cases, eq_self, ==_iff, some_inj, All,
}
use ubuy_backend.Domain.{Auction, User, Wishlist}
use ubuy_backend.Platform.World.{World}
use ubuy_backend.Auctions.Lifecycle.{contains}
use ubuy_backend.Wishlist.Listing.{Item, item_of, joined, join_all, wishlist_items}

-- A filter that lets all that is looked for through.
first-keep {ℓ} :
    {A : Type ℓ} (p q : A → Bool) (xs : List A)
    → ((x : A) → p x ≡ true → q x ≡ true)
    → first p (keep q xs) ≡ first p xs
first-keep p q [] h = refl
first-keep p q (x ∷ xs) h = ground (arith, h x, first-keep p q xs h)

contains-first {ℓ} :
    {A : Type ℓ} (p : A → Bool) (f : A → ℕ) (xs : List A) (a : A)
    → first p xs ≡ some a
    → contains (map f xs) (f a) ≡ true
contains-first p f [] a h = cc
contains-first p f (x ∷ xs) a h = elim (Bool-cases (p x)) [
  | inl y ↦ rw (sym (some_inj (rw y at h))) (rw (eq_self (f x)) refl)
  | inr n ↦ rw (contains-first p f xs a (rw n at h)) (or_true (f x == f a))
]

-- The item of an entry, found in the whole collections.
unfoldable pub shown : World → Wishlist → List Item
shown w x = joined w.users x (first (λ a. a.id == x.auction_id) w.auctions)

unfoldable pub all_shown : World → List Wishlist → List Item
all_shown w [] = []
all_shown w (x ∷ xs) = shown w x ++ all_shown w xs

joined-same :
    (sellers users : List User) (x : Wishlist) (o : Option Auction)
    → ((a : Auction)
        → o ≡ some a
        → first (λ u. u.id == a.created_by) sellers ≡ first (λ u. u.id == a.created_by) users)
    → joined sellers x o ≡ joined users x o
joined-same sellers users x none h = refl
joined-same sellers users x (some a) h = ap (λ s. item_of x a s ∷ []) (h a refl)

module _ (w : World) (ids : List ℕ) where
  abbrev found : List Auction
  found = keep (λ a. contains ids a.id) w.auctions

  abbrev sellers : List User
  sellers = keep (λ u. contains (map (λ (a : Auction). a.created_by) found) u.id) w.users

  joined-shown :
      (x : Wishlist)
      → contains ids x.auction_id ≡ true
      → joined sellers x (first (λ a. a.id == x.auction_id) found) ≡ shown w x
  unfolding shown
  joined-shown x h =
      joined-same sellers w.users x (first (λ a. a.id == x.auction_id) found) (λ a e.
        first-keep (λ (u : User). u.id == a.created_by) _ w.users
          (λ u k.
            subst (λ i. contains (map (λ (a' : Auction). a'.created_by) found) i ≡ true)
              (sym ((==_iff u.id a.created_by).0 k))
              (contains-first (λ a. a.id == x.auction_id) (λ (a : Auction). a.created_by) found a
                e)))
      ∙ ap (joined w.users x) (
          first-keep (λ (a : Auction). a.id == x.auction_id) _ w.auctions
            (λ a k. subst (λ i. contains ids i ≡ true) (sym ((==_iff a.id x.auction_id).0 k)) h))

  join_all-all_shown :
      (xs : List Wishlist)
      → All (λ (x : Wishlist). contains ids x.auction_id ≡ true) xs
      → join_all found sellers xs ≡ all_shown w xs
  unfolding all_shown
  join_all-all_shown [] h = refl
  join_all-all_shown (x ∷ xs) h =
      rw (joined-shown x h.0) (ap (λ t. shown w x ++ t) (join_all-all_shown xs h.1))

All-contained :
    (ids : List ℕ) (xs : List Wishlist)
    → ((i : ℕ)
        → contains (map (λ (x : Wishlist). x.auction_id) xs) i ≡ true
        → contains ids i ≡ true)
    → All (λ (x : Wishlist). contains ids x.auction_id ≡ true) xs
All-contained ids [] h = tt
All-contained ids (x ∷ xs) h = (
  h x.auction_id (rw (eq_self x.auction_id) refl),
  All-contained ids xs (λ i k. h i (rw k (or_true (x.auction_id == i)))),
)

pub wishlist_items-all_shown :
    (xs : List Wishlist) (w : World) → wishlist_items xs w ≡ all_shown w xs
unfolding wishlist_items
wishlist_items-all_shown xs w =
    let ids = map (λ (x : Wishlist). x.auction_id) xs in
    join_all-all_shown w ids xs (All-contained ids xs (λ i h. h))
