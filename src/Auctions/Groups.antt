-- ===== src/Auctions/Groups.antt =====
-- The groups of ranked bids in `getTopBiddersForAuction` of modules/auctions/auctions.service.ts.
use ubuy_backend.Base.{
  ℕ, ◌≡◌, ◌≤◌, ◌<◌, inl, inr, refl, Bool, true, false, not, ◌&&◌, List, [], ◌∷◌, ◌==◌, reject,
  count, ltb, leb, count-zero, IsSorted, All, arith, Bool-cases,
}
use ubuy_backend.Domain.{UserId, Bid}
use ubuy_backend.Platform.{IsBetter}
use ubuy_backend.Auctions.TopBidders.{Group, group_of, group_by_user}

-- A bid of the user, of at least or of exactly or of more than an amount.
abbrev pub is_bid_of : UserId → ℕ → Bid → Bool
is_bid_of u x b = b.user_id == u && b.amount == x

abbrev pub is_higher_of : UserId → ℕ → Bid → Bool
is_higher_of u x b = b.user_id == u && ltb x b.amount

-- The amount is the highest that the user has bid.
abbrev pub is_highest : List Bid → UserId → ℕ → Bool
is_highest bs u x = ltb 0 (count (is_bid_of u x) bs) && count (is_higher_of u x) bs == 0

-- A group that is not the highest bid of its user.
abbrev pub is_wrong : List Bid → Group → Bool
is_wrong bs g = not (is_highest bs g.user_id g.amount)

count-reject_le {ℓ} :
    {A : Type ℓ} (p q : A → Bool) (xs : List A) → count p (reject q xs) ≤ count p xs
count-reject_le p q [] = omega arith
count-reject_le p q (x ∷ xs) = ground (arith, count-reject_le p q xs)

-- Under a bid of somebody else a group stays right.
is_wrong-cons :
    (b : Bid) (bs : List Bid) (gs : List Group)
    → count (is_wrong (b ∷ bs)) (reject (λ g. g.user_id == b.user_id) gs) ≤ count (is_wrong bs) gs
is_wrong-cons b bs [] = omega arith
is_wrong-cons b bs (g ∷ gs) = ground (arith, is_wrong-cons b bs gs)

not_higher : (b c : Bid) → IsBetter b c → is_higher_of b.user_id b.amount c ≡ false
not_higher b c h = ground arith

first_right :
    (b : Bid) (bs : List Bid) → IsSorted IsBetter (b ∷ bs) → is_wrong (b ∷ bs) (group_of b) ≡ false
first_right b bs h =
    ground (arith, count-zero (IsBetter b) (is_higher_of b.user_id b.amount) bs h.0 (not_higher b))

-- Of bids in their ranking each group has the highest bid of its user.
pub group_by_user-highest :
    (bs : List Bid) → IsSorted IsBetter bs → count (is_wrong bs) (group_by_user bs) ≡ 0
unfolding group_by_user
group_by_user-highest [] h = refl
group_by_user-highest (b ∷ bs) h =
    rw (first_right b bs h)
      (omega (arith, is_wrong-cons b bs (group_by_user bs), group_by_user-highest bs h.1))

count-reject_self {ℓ} :
    {A : Type ℓ} (p q : A → Bool) (xs : List A)
    → ((x : A) → p x ≡ true → q x ≡ true)
    → count p (reject q xs) ≡ 0
count-reject_self p q [] h = refl
count-reject_self p q (x ∷ xs) h = ground (arith, h x, count-reject_self p q xs h)

-- One group for each user.
pub group_by_user-once :
    (u : UserId) (bs : List Bid) → count (λ g. g.user_id == u) (group_by_user bs) ≤ 1
unfolding group_by_user
group_by_user-once u [] = omega arith
group_by_user-once u (b ∷ bs) = ground (
  arith,
  count-reject_self (λ (g : Group). g.user_id == u) (λ g. g.user_id == b.user_id)
      (group_by_user bs),
  count-reject_le (λ (g : Group). g.user_id == u) (λ g. g.user_id == b.user_id) (group_by_user bs),
  group_by_user-once u bs,
)

count-reject_others {ℓ} :
    {A : Type ℓ} (p q : A → Bool) (xs : List A)
    → ((x : A) → p x ≡ true → q x ≡ false)
    → count p (reject q xs) ≡ count p xs
count-reject_others p q [] h = refl
count-reject_others p q (x ∷ xs) h = ground (arith, h x, count-reject_others p q xs h)

-- A group of the user with at least the amount.
abbrev has_group : UserId → ℕ → Group → Bool
has_group u x g = g.user_id == u && leb x g.amount

ranked_amount :
    (u : UserId) (x : ℕ) (b : Bid) (bs : List Bid)
    → All (IsBetter b) bs
    → 0 < count (is_bid_of u x) bs
    → x ≤ b.amount
ranked_amount u x b [] h k = absurd (omega arith)
ranked_amount u x b (c ∷ bs) h k = ground (arith, h.0, ranked_amount u x b bs h.1)

other_group :
    (u v : UserId) (x : ℕ) (g : Group)
    → (v == u) ≡ false
    → has_group u x g ≡ true
    → (g.user_id == v) ≡ false
other_group u v x g n h = ground arith

-- Every bid has a group of its user that is no lower.
pub group_by_user_complete :
    (u : UserId) (x : ℕ) (bs : List Bid)
    → IsSorted IsBetter bs
    → 0 < count (is_bid_of u x) bs
    → 0 < count (has_group u x) (group_by_user bs)
unfolding group_by_user
group_by_user_complete u x [] h k = k
group_by_user_complete u x (b ∷ bs) h k = elim (Bool-cases (b.user_id == u)) [
  | inl y ↦ ground (arith, ranked_amount u x b bs h.0)
  | inr n ↦ ground (
    arith,
    group_by_user_complete u x bs h.1,
    count-reject_others (has_group u x) (λ g. g.user_id == b.user_id) (group_by_user bs)
        (λ g. other_group u b.user_id x g n),
  )
]
