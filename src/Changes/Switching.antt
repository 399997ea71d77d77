-- ===== src/Changes/Switching.antt =====
-- Switching the winner and the methods built on it perform allowed changes only.
use ubuy_backend.Base.{
  ◌+◌, ◌≡◌, ◌≢◌, ◌⊎◌, ◌==◌, ◌||◌, inl, inr, not, Option, none, some, List, [], ◌∷◌, arith,
  Bool-cases, Option-cases, take,
}
use ubuy_backend.Domain.{
  AuctionId, UserId, Auction, Bid, PaymentStatus, Reason, creator_decision_push_next,
}
use ubuy_backend.Domain.Equality.{is_paid}
use ubuy_backend.Platform.{Env}
use ubuy_backend.Platform.World.{World}
use ubuy_backend.Platform.Store.{set_due_at, lookup, patched}
use ubuy_backend.Auctions.Payment.{payment_expiry_delay_ms}
use ubuy_backend.Auctions.Winner.{
  NextBidder, first_other, ranked_bids, next_winner, replace_winner_with_next_bidder, Decision,
  push_next, keep_current, keep_current_winner, after_switch, decide_for,
  handle_payment_expiry_decision,
}
use ubuy_backend.Auctions.Frames.{announce_switch-Spares, announce_extension-Spares}
use ubuy_backend.Changes.{promote, window, Changes, here}
use ubuy_backend.Changes.Methods.{Respects, no_change, one_update, free_update, bind-Changes}

-- The bidder that is picked is not the one who is passed over.
first_other-ne :
    (u : UserId) (bids : List Bid) {n : NextBidder} → first_other u bids ≡ some n → n.user_id ≢ u
unfolding first_other
first_other-ne u [] h = cc
first_other-ne u (b ∷ bids) {n} h = ground (arith, first_other-ne u bids {n = n})

module _ (e : Env) where
  pub replace-Changes :
      (i : AuctionId) (u : UserId) (r : Reason) (a : Auction) (w : World)
      → lookup e i w.auctions ≡ some a
      → a.payment_status ≡ PaymentStatus.active
      → a.winner ≡ some u
      → Changes e w.auctions (replace_winner_with_next_bidder e i u r w).1.auctions
  unfolding replace_winner_with_next_bidder
  replace-Changes i u r a w found unpaid won =
      elim (Option-cases (first_other u (take 100 (ranked_bids e i w.bids)))) [
        | inl nobody ↦ no_change e (ground arith)
        | inr (n, picked) ↦
            one_update e i (next_winner u r a n w.now) a found
              (promote unpaid won (first_other-ne u _ picked)) (ground arith)
      ]

  -- Both ways to open another payment window set the due date and leave the rest.
  after_switch-auctions :
      (i : AuctionId) (creator winner : UserId) (a b : Auction) (n : NextBidder) (w : World)
      → (after_switch e i creator winner a (some (b, n)) w).1.auctions
        ≡ patched e i (set_due_at (w.now + payment_expiry_delay_ms)) w.auctions
  unfolding after_switch
  after_switch-auctions i creator winner a b n w = grind (arith, announce_switch-Spares)

  keep_current_winner-auctions :
      (i : AuctionId) (creator winner : UserId) (a : Auction) (w : World)
      → (keep_current_winner e i creator winner a w).1.auctions
        ≡ patched e i (set_due_at (w.now + payment_expiry_delay_ms)) w.auctions
  unfolding keep_current_winner
  keep_current_winner-auctions i creator winner a w = grind (arith, announce_extension-Spares)

  after_switch-Respects :
      (i : AuctionId) (creator winner : UserId) (a : Auction) (o : Option (Auction × NextBidder))
      → Respects e (after_switch e i creator winner a o)
  unfolding after_switch
  after_switch-Respects i creator winner a none w = here
  after_switch-Respects i creator winner a (some (b, n)) w =
      rw (after_switch-auctions i creator winner a b n w)
        (free_update e i (set_due_at (w.now + payment_expiry_delay_ms)) w.auctions (λ d. window))

  decide_for-Changes :
      (d : Decision) (i : AuctionId) (creator u : UserId) (a : Auction) (w : World)
      → lookup e i w.auctions ≡ some a
      → a.payment_status ≡ PaymentStatus.active
      → a.winner ≡ some u
      → Changes e w.auctions (decide_for e d i creator u a w).1.auctions
  unfolding decide_for
  decide_for-Changes keep_current i creator u a w found unpaid won =
      rw (keep_current_winner-auctions i creator u a w)
        (free_update e i (set_due_at (w.now + payment_expiry_delay_ms)) w.auctions (λ d. window))
  decide_for-Changes push_next i creator u a w found unpaid won =
      bind-Changes e (replace_winner_with_next_bidder e i u creator_decision_push_next)
        (after_switch e i creator u a) w
        (replace-Changes i u creator_decision_push_next a w found unpaid won)
        (λ o. after_switch-Respects i creator u a o)

  -- With the document in hand: refused with nothing changed, or decided for the winner.
  decision_cases :
      (i : AuctionId) (creator : UserId) (d : Decision) (a : Auction) (w : World)
      → lookup e i w.auctions ≡ some a
      → ((handle_payment_expiry_decision e i creator d w).1.auctions ≡ w.auctions)
        ⊎ ((u : UserId) × (a.payment_status ≡ PaymentStatus.active)
            × (a.winner ≡ some u)
            × ((handle_payment_expiry_decision e i creator d w).1.auctions
                ≡ (decide_for e d i creator u a w).1.auctions))
  unfolding handle_payment_expiry_decision
  decision_cases i creator d a w found = elim (Option-cases a.winner) [
    | inl no_one ↦ inl (ground arith)
    | inr (u, won) ↦ elim (Bool-cases (not (a.created_by == creator) || is_paid a.payment_status)) [
      | inl refused ↦ inl (ground arith)
      | inr fine ↦ inr (u, ground arith, won, ground arith)
    ]
  ]

  decision_on :
      (i : AuctionId) (creator : UserId) (d : Decision) (a : Auction) (w : World)
      → lookup e i w.auctions ≡ some a
      → Changes e w.auctions (handle_payment_expiry_decision e i creator d w).1.auctions
  decision_on i creator d a w found = elim (decision_cases i creator d a w found) [
    | inl same ↦ no_change e same
    | inr (u, unpaid, won, eq) ↦ rw eq (decide_for-Changes d i creator u a w found unpaid won)
  ]

  pub handle_payment_expiry_decision-Respects :
      (i : AuctionId) (creator : UserId) (d : Decision)
      → Respects e (handle_payment_expiry_decision e i creator d)
  unfolding handle_payment_expiry_decision
  handle_payment_expiry_decision-Respects i creator d w =
      elim (Option-cases (lookup e i w.auctions)) [
        | inl missing ↦ no_change e (ground arith)
        | inr (a, found) ↦ decision_on i creator d a w found
      ]
