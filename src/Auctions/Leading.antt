-- ===== src/Auctions/Leading.antt =====
-- Whom `getTopBiddersForAuction` of modules/auctions/auctions.service.ts shows.
use ubuy_backend.Base.{
  ℕ, zero, suc, ◌+◌, ◌≡◌, ◌≤◌, ◌<◌, ◌∙◌, ◌⊎◌, inl, inr, refl, ap, Bool, true, false, not, ◌&&◌,
  Option, none, some, List, [], ◌∷◌, ◌==◌, keep, take, drop, map, length, count, ltb, leb, is_some,
  if◌then◌else◌, IsSorted, All, arith, Bool-cases,
}
use ubuy_backend.Domain.{AuctionId, UserId, Bid}
use ubuy_backend.Platform.{Env, Sorter}
use ubuy_backend.Platform.World.{World, ok}
use ubuy_backend.Auctions.TopBidders.{
  TopBidder, TopBidders, Group, group_by_user, IsAhead, top_limit, with_name, leaders,
  get_top_bidders_for_auction,
}
use ubuy_backend.Auctions.Groups.{
  is_bid_of, is_higher_of, is_highest, is_wrong, group_by_user-highest, group_by_user-once,
  group_by_user_complete,
}

-- The first `n` of a sorted list, when something that passes is behind them.
module _ (p : TopBidder → Bool) (x : ℕ) (high : (t : TopBidder) → p t ≡ true → x ≤ t.amount) where
  ahead_of : (t : TopBidder) (c : List TopBidder) → All (IsAhead t) c → 0 < count p c → x ≤ t.amount
  ahead_of t [] h k = absurd (omega arith)
  ahead_of t (y ∷ c) h k = ground (arith, h.0, high y, ahead_of t c h.1)

  count-drop : (n : ℕ) (c : List TopBidder) → count p (drop n c) ≤ count p c
  count-drop zero c = omega arith
  count-drop (suc n) [] = omega arith
  count-drop (suc n) (t ∷ c) = omega (arith, count-drop n c)

  behind :
      (n : ℕ) (c : List TopBidder)
      → IsSorted IsAhead c
      → 0 < count p (drop n c)
      → (length (take n c) ≡ n) × All (λ (t : TopBidder). x ≤ t.amount) (take n c)
  behind zero c h k = (refl, tt)
  behind (suc n) [] h k = absurd (omega arith)
  behind (suc n) (t ∷ c) h k =
      let (l, a) = behind n c h.1 k in
      (ap suc l, (ahead_of t c h.0 (omega (arith, count-drop n c)), a))

count-take-drop :
    (p : TopBidder → Bool) (n : ℕ) (c : List TopBidder)
    → count p (take n c) + count p (drop n c) ≡ count p c
count-take-drop p zero c = omega arith
count-take-drop p (suc n) [] = omega arith
count-take-drop p (suc n) (t ∷ c) = omega (arith, count-take-drop p n c)

length-take : (n : ℕ) (c : List TopBidder) → length (take n c) ≤ n
length-take zero c = omega arith
length-take (suc n) [] = omega arith
length-take (suc n) (t ∷ c) = omega (arith, length-take n c)

abbrev pub is_entry_of : UserId → TopBidder → Bool
is_entry_of u t = t.user_id == u

-- The bidder is shown, or the list is full of bids that are no lower.
pub IsServed : UserId → ℕ → ℕ → List TopBidder → Type 0
IsServed u x n shown =
    (0 < count (is_entry_of u) shown)
    ⊎ ((length shown ≡ n) × All (λ (t : TopBidder). x ≤ t.amount) shown)

count-map {ℓ κ} :
    {A : Type ℓ} {B : Type κ} (p : B → Bool) (f : A → B) (xs : List A)
    → count p (map f xs) ≡ count (λ x. p (f x)) xs
count-map p f [] = refl
count-map p f (x ∷ xs) = ap (λ n. (if p (f x) then 1 else 0) + n) (count-map p f xs)

count-cong {ℓ} :
    {A : Type ℓ} (p q : A → Bool) (xs : List A) → ((x : A) → p x ≡ q x) → count p xs ≡ count q xs
count-cong p q [] h = refl
count-cong p q (x ∷ xs) h = rw (h x) (rw (count-cong p q xs h) refl)

-- The entry does not show the highest bid of its bidder.
pub is_wrong_entry : List Bid → TopBidder → Bool
is_wrong_entry bs t = not (is_highest bs t.user_id t.amount)

top_limit-positive : (limit : Option ℕ) → 1 ≤ top_limit limit
unfolding top_limit
top_limit-positive none = ground arith
top_limit-positive (some n) = ground arith

top_limit-le : (limit : Option ℕ) → top_limit limit ≤ 20
unfolding top_limit
top_limit-le none = ground arith
top_limit-le (some n) = ground arith

module _ (e : Env) (leading : Sorter IsAhead) (i : AuctionId) (w : World) where
  abbrev of_auction : List Bid
  of_auction = keep (λ b. b.auction_id == i) w.bids

  abbrev groups : List Group
  groups = group_by_user (e.best.sort of_auction)

  count-leaders :
      (p : TopBidder → Bool)
      → count p (leaders e leading i w) ≡ count (λ g. p (with_name e leading w.users g)) groups
  unfolding leaders
  count-leaders p =
      leading.count-sort p (map (with_name e leading w.users) groups)
      ∙ count-map p (with_name e leading w.users) groups

  is_highest-sort :
      (u : UserId) (x : ℕ) → is_highest of_auction u x ≡ is_highest (e.best.sort of_auction) u x
  is_highest-sort u x =
      rw (e.best.count-sort (is_bid_of u x) of_auction)
        (rw (e.best.count-sort (is_higher_of u x) of_auction) refl)

  leaders-highest : count (is_wrong_entry of_auction) (leaders e leading i w) ≡ 0
  unfolding is_wrong_entry
  leaders-highest =
      count-leaders (is_wrong_entry of_auction)
      ∙ count-cong (λ g. is_wrong_entry of_auction (with_name e leading w.users g))
          (is_wrong (e.best.sort of_auction)) groups
          (λ g. ap not (is_highest-sort g.user_id g.amount))
      ∙ group_by_user-highest (e.best.sort of_auction) (e.best.sort-IsSorted of_auction)

  leaders-once : (u : UserId) → count (is_entry_of u) (leaders e leading i w) ≤ 1
  leaders-once u =
      rw (count-leaders (is_entry_of u)) (group_by_user-once u (e.best.sort of_auction))

  abbrev no_lower : UserId → ℕ → TopBidder → Bool
  no_lower u x t = t.user_id == u && leb x t.amount

  leaders_complete :
      (u : UserId) (x : ℕ)
      → 0 < count (is_bid_of u x) of_auction
      → 0 < count (no_lower u x) (leaders e leading i w)
  leaders_complete u x h = rw (count-leaders (no_lower u x)) (
      group_by_user_complete u x (e.best.sort of_auction) (e.best.sort-IsSorted of_auction)
        (rw (e.best.count-sort (is_bid_of u x) of_auction) h))

  leaders-IsSorted : IsSorted IsAhead (leaders e leading i w)
  unfolding leaders
  leaders-IsSorted = leading.sort-IsSorted (map (with_name e leading w.users) groups)

  leaders-IsServed :
      (u : UserId) (x n : ℕ)
      → 0 < count (is_bid_of u x) of_auction
      → IsServed u x n (take n (leaders e leading i w))
  unfolding IsServed
  leaders-IsServed u x n h =
      elim (Bool-cases (ltb 0 (count (is_entry_of u) (take n (leaders e leading i w))))) [
        | inl y ↦ inl (ground arith)
        | inr m ↦ inr (
            behind (no_lower u x) x (λ t k. ground arith) n (leaders e leading i w) leaders-IsSorted
              (omega (
                arith,
                leaders_complete u x h,
                count-take-drop (no_lower u x) n (leaders e leading i w),
                no_lower-le (take n (leaders e leading i w)),
                not_positive (count (is_entry_of u) (take n (leaders e leading i w))) m,
              )))
      ]
    where
      no_lower-le : (c : List TopBidder) → count (no_lower u x) c ≤ count (is_entry_of u) c
      no_lower-le [] = omega arith
      no_lower-le (t ∷ c) = ground (arith, no_lower-le c)

      not_positive : (k : ℕ) → ltb 0 k ≡ false → k ≡ 0
      not_positive k h = ground arith

  -- For a valid id of an auction that exists, `getTopBiddersForAuction` answers and changes nothing.
  -- It shows at most as many bidders as the limit, between 1 and 20, each at most once and with the
  -- highest amount that the bidder has bid on the auction; the total is the number of those shown. A
  -- bidder who is not shown has no bid that is higher than one of those shown, of which there are
  -- then as many as the limit.
  pub get_top_bidders_for_auction_lem :
      (limit : Option ℕ)
      → e.is_valid_id i ≡ true
      → is_some (e.auctions.find_one (λ a. a.id == i) w.auctions) ≡ true
      → (r : TopBidders) × (get_top_bidders_for_auction e leading i limit w ≡ (ok r, w))
        × (r.total ≡ length r.top_bidders)
        × (length r.top_bidders ≤ top_limit limit)
        × (1 ≤ top_limit limit)
        × (top_limit limit ≤ 20)
        × (count (is_wrong_entry (keep (λ b. b.auction_id == i) w.bids)) r.top_bidders ≡ 0)
        × ((u : UserId) → count (is_entry_of u) r.top_bidders ≤ 1)
        × ((u : UserId) (x : ℕ)
            → 0 < count (is_bid_of u x) (keep (λ b. b.auction_id == i) w.bids)
            → IsServed u x (top_limit limit) r.top_bidders)
  unfolding get_top_bidders_for_auction
  get_top_bidders_for_auction_lem limit valid there =
      let shown = take (top_limit limit) (leaders e leading i w) in
      (
        record { auction_id = i; total = length shown; top_bidders = shown },
        rw valid (ground (arith, there)),
        refl,
        length-take (top_limit limit) (leaders e leading i w),
        top_limit-positive limit,
        top_limit-le limit,
        omega (
          arith,
          leaders-highest,
          count-take-drop (is_wrong_entry of_auction) (top_limit limit) (leaders e leading i w),
        ),
        (λ u. omega (
          arith,
          leaders-once u,
          count-take-drop (is_entry_of u) (top_limit limit) (leaders e leading i w),
        )),
        (λ u x h. leaders-IsServed u x (top_limit limit) h),
      )
