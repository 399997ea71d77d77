-- ===== src/Auctions/Ranking.antt =====
-- Whom `findNextHighestBidder` picks.
use ubuy_backend.Base.{
  ℕ, zero, suc, ◌≡◌, ◌≢◌, ◌≤◌, ◌<◌, ◌==◌, ◌&&◌, refl, Bool, true, false, not, Option, none, some,
  List, [], ◌∷◌, arith, take, count, count-keep, count-zero, IsSorted, ltb, length, ◌∙◌, sym, ap,
}
use ubuy_backend.Domain.{AuctionId, UserId, Bid}
use ubuy_backend.Platform.{Env, IsBetter}
use ubuy_backend.Platform.World.{World, Result, ok}
use ubuy_backend.Auctions.Winner.{NextBidder, first_other, ranked_bids, find_next_highest_bidder}

-- A bid of somebody else than `u` that beats `x`.
abbrev pub outranks : UserId → ℕ → Bid → Bool
outranks u x b = not (b.user_id == u) && ltb x b.amount

abbrev pub is_bid_of : NextBidder → Bid → Bool
is_bid_of n b = b.user_id == n.user_id && b.amount == n.amount

beaten : (u : UserId) (b c : Bid) → IsBetter b c → outranks u b.amount c ≡ false
beaten u b c h = ground arith

-- In a ranked list the first bid of somebody else is beaten by no bid of somebody else.
first_other-best :
    (u : UserId) (k : ℕ) (bs : List Bid) {n : NextBidder}
    → IsSorted IsBetter bs
    → first_other u (take k bs) ≡ some n
    → (n.user_id ≢ u) × (0 < count (is_bid_of n) bs) × (count (outranks u n.amount) bs ≡ 0)
unfolding first_other
first_other-best u zero bs sorted h = cc
first_other-best u (suc k) [] sorted h = cc
first_other-best u (suc k) (b ∷ bs) {n} sorted h = ground (
  arith,
  first_other-best u k bs {n = n} sorted.1,
  count-zero (IsBetter b) (outranks u b.amount) bs sorted.0 (beaten u b),
)

first_other-none :
    (u : UserId) (k : ℕ) (bs : List Bid)
    → length bs ≤ k
    → first_other u (take k bs) ≡ none
    → count (λ b. not (b.user_id == u)) bs ≡ 0
unfolding first_other
first_other-none u zero [] h e = refl
first_other-none u zero (b ∷ bs) h e = absurd (omega arith)
first_other-none u (suc k) [] h e = refl
first_other-none u (suc k) (b ∷ bs) h e = ground (arith, first_other-none u k bs)

module _ (e : Env) (i : AuctionId) where
  -- What the ranking counts, the collection counts among the bids of the auction.
  count-ranked :
      (p : Bid → Bool) (c : List Bid)
      → count p (ranked_bids e i c) ≡ count (λ b. b.auction_id == i && p b) c
  unfolding ranked_bids
  count-ranked p c = e.best.count-sort p _ ∙ count-keep p (λ b. b.auction_id == i) c

  -- The bidder that `findNextHighestBidder` answers is not the current winner, has bid the amount
  -- that it answers on this auction, and no bid of anybody but the current winner on it is higher.
  pub find_next_highest_bidder-best :
      (u : UserId) (w : World) {n : NextBidder}
      → find_next_highest_bidder e i u w ≡ (ok (some n), w)
      → (n.user_id ≢ u)
        × (0 < count (λ b. b.auction_id == i && is_bid_of n b) w.bids)
        × (count (λ b. b.auction_id == i && outranks u n.amount b) w.bids ≡ 0)
  unfolding find_next_highest_bidder ranked_bids
  find_next_highest_bidder-best u w {n} h =
      let (other, real, best) =
        first_other-best u 100 (ranked_bids e i w.bids) {n = n} (e.best.sort-IsSorted _)
          (ground arith) in
      (
        other,
        rw (← count-ranked (is_bid_of n) w.bids) real,
        rw (← count-ranked (outranks u n.amount) w.bids) best,
      )

  length-eq-count : (bs : List Bid) → length bs ≡ count (λ b. true) bs
  length-eq-count [] = refl
  length-eq-count (b ∷ bs) = omega (arith, length-eq-count bs)

  -- On an auction with at most 100 bids, `findNextHighestBidder` answers null only if all of them are
  -- by the current winner.
  pub find_next_highest_bidder-none :
      (u : UserId) (w : World)
      → count (λ b. b.auction_id == i && true) w.bids ≤ 100
      → find_next_highest_bidder e i u w ≡ (ok none, w)
      → count (λ b. b.auction_id == i && not (b.user_id == u)) w.bids ≡ 0
  unfolding find_next_highest_bidder ranked_bids
  find_next_highest_bidder-none u w few h = rw (← count-ranked (λ b. not (b.user_id == u)) w.bids) (
      first_other-none u 100 (ranked_bids e i w.bids)
        (omega (arith, length-eq-count (ranked_bids e i w.bids), count-ranked (λ b. true) w.bids))
        (ground arith))

  first_other-top :
      (u : UserId) (b : Bid) (bs : List Bid)
      → b.user_id ≢ u
      → first_other u (take 100 (b ∷ bs)) ≡ some (record { user_id = b.user_id; amount = b.amount })
  unfolding first_other
  first_other-top u b bs h = ground arith

  first_other-ne :
      (u : UserId) (bs : List Bid) {n : NextBidder} → first_other u bs ≡ some n → n.user_id ≢ u
  unfolding first_other
  first_other-ne u [] h = cc
  first_other-ne u (b ∷ bs) {n} h = ground (arith, first_other-ne u bs {n = n})

  -- When the author of the best bid has been passed over for another bidder, passing over that one
  -- selects the first again: only the current winner is excluded, so no third bidder is reached.
  pub passed_over_again :
      (b : Bid) (bs : List Bid) (w : World) (n : NextBidder)
      → ranked_bids e i w.bids ≡ b ∷ bs
      → find_next_highest_bidder e i b.user_id w ≡ (ok (some n), w)
      → find_next_highest_bidder e i n.user_id w
        ≡ (ok (some (record { user_id = b.user_id; amount = b.amount })), w)
  unfolding find_next_highest_bidder
  passed_over_again b bs w n ranked h = rw ranked (
      ap (λ (o : Option NextBidder). (ok o, w))
        (first_other-top n.user_id b bs (λ same. first_other-ne b.user_id _ (picked h) (sym same))))
    where
      picked :
          {o : Option NextBidder}
          → ◌≡◌ {A = Result (Option NextBidder) × World} (ok o, w) (ok (some n), w)
          → o ≡ some n
      picked p = cc (ap (λ (r : Result (Option NextBidder) × World). r.0) p)
