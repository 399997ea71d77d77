-- ===== src/Changes/Methods.antt =====
-- Every method of the services that writes auctions performs allowed changes only.
use ubuy_backend.Base.{
  ◌≡◌, refl, ◌⊎◌, ◌==◌, inl, inr, true, Option, some, List, arith, Bool-cases, Option-cases, ◌||◌,
  is_some, ◌+◌, keep, leb,
}
use ubuy_backend.Domain.{AuctionId, UserId, Auction, Status, PaymentStatus}
use ubuy_backend.Domain.Equality.{is_ended, is_cancelled}
use ubuy_backend.Platform.{Env}
use ubuy_backend.Platform.World.{World, Action, Result, ok, err, ◌>>=◌}
use ubuy_backend.Platform.Store.{
  Patch, set_ended, set_cancelled, set_paid, set_due_at, set_notified, lookup, patched, deleted,
  patched_missing,
}
use ubuy_backend.Auctions.Lifecycle.{
  end_auction, cancel_auction, delete_auction, request_immediate_end, sweep, contains, bid_stats,
  get_bid_stats_for_user, create as create_auction, CreateAuctionDto, new_auction, is_empty,
}
use ubuy_backend.Auctions.Payment.{
  confirm_winner_payment, confirm_winner_payment_by_provider, schedule_winner_payment_lifecycle,
  mark_auction_notified, payment_expiry_delay_ms,
}
use ubuy_backend.Auctions.Frames.{announce_payment-Spares, announce_cancel-Spares}
use ubuy_backend.Changes.{
  Allowed, close, cancel, window, pay, notify, update, overdue, create, delete, Changes, here, next,
}

module _ (e : Env) where
  -- `m` changes the auctions only as the specification allows, whether it throws or not.
  abbrev pub Respects : {A : Type 0} → Action A → Type 0
  Respects m = (w : World) → Changes e w.auctions (m w).1.auctions

  -- An update of one document, and nothing else.
  pub one_update :
      {c c' : List Auction} (i : AuctionId) (p : Patch) (a : Auction)
      → lookup e i c ≡ some a
      → Allowed a p
      → c' ≡ patched e i p c
      → Changes e c c'
  one_update i p a found allowed eq = next here (update i p a found allowed eq)

  pub no_change : {c c' : List Auction} → c' ≡ c → Changes e c c'
  no_change eq = rw eq here

  pub trans : {c c' c'' : List Auction} → Changes e c c' → Changes e c' c'' → Changes e c c''
  trans h here = h
  trans h (next before change) = next (trans h before) change

  -- A method made of two performs the changes of the one and then those of the other.
  pub bind-Changes_at :
      {A B : Type 0} (m : Action A) (f : A → Action B) (w : World)
      → Changes e w.auctions (m w).1.auctions
      → ((a : A) → Changes e (m w).1.auctions (f a (m w).1).1.auctions)
      → Changes e w.auctions ((m >>= f) w).1.auctions
  bind-Changes_at {A} {B} m f w h k = after (m w) h k
    where
      after :
          (r : Result A × World)
          → Changes e w.auctions r.1.auctions
          → ((a : A) → Changes e r.1.auctions (f a r.1).1.auctions)
          → Changes e w.auctions (◌>>=◌ {A = A} {B = B} (λ _. r) f w).1.auctions
      after (ok a, w') c k = trans c (k a)
      after (err x, w') c k = c

  pub bind-Changes :
      {A B : Type 0} (m : Action A) (f : A → Action B) (w : World)
      → Changes e w.auctions (m w).1.auctions
      → ((a : A) → Respects (f a))
      → Changes e w.auctions ((m >>= f) w).1.auctions
  bind-Changes m f w h k = bind-Changes_at m f w h (λ a. k a (m w).1)

  -- An update that is allowed on every document.
  pub free_update :
      (i : AuctionId) (p : Patch) (c : List Auction)
      → ((a : Auction) → Allowed a p)
      → Changes e c (patched e i p c)
  free_update i p c h = elim (Option-cases (lookup e i c)) [
    | inl missing ↦ no_change (patched_missing e i c p missing)
    | inr (a, found) ↦ one_update i p a found (h a) refl
  ]

  pub end_auction-Respects : (i : AuctionId) → Respects (end_auction e i)
  unfolding end_auction
  end_auction-Respects i w = elim (Option-cases (lookup e i w.auctions)) [
    | inl missing ↦ no_change (ground arith)
    | inr (a, found) ↦ elim (Bool-cases (is_ended a.status || is_cancelled a.status)) [
      | inl over ↦ no_change (ground arith)
      | inr open_ ↦
          one_update i (set_ended a.highest_bidder) a found (close (ground arith) refl)
            (ground arith)
    ]
  ]

  -- The two ways in which a method leaves the auctions: as they were, or with one update made.
  abbrev Touches : List Auction → List Auction → AuctionId → Patch → Type 0 → Type 0
  Touches c c' i p Why = (c' ≡ c) ⊎ ((c' ≡ patched e i p c) × Why)

  touched :
      {c c' : List Auction} (i : AuctionId) (p : Patch) (a : Auction) {Why : Type 0}
      → lookup e i c ≡ some a
      → (Why → Allowed a p)
      → Touches c c' i p Why
      → Changes e c c'
  touched i p a found allowed (inl same) = no_change same
  touched i p a found allowed (inr (eq, why)) = one_update i p a found (allowed why) eq

  confirm_winner_payment-Touches :
      (i : AuctionId) (u : UserId) (a : Auction) (w : World)
      → lookup e i w.auctions ≡ some a
      → Touches w.auctions
          (confirm_winner_payment e i u w).1.auctions
          i
          set_paid
          ((a.status ≡ Status.ended) × (a.winner ≡ some u))
  unfolding confirm_winner_payment
  confirm_winner_payment-Touches i u a w found = grind (arith, announce_payment-Spares)

  pub confirm_winner_payment-Respects :
      (i : AuctionId) (u : UserId) → Respects (confirm_winner_payment e i u)
  unfolding confirm_winner_payment
  confirm_winner_payment-Respects i u w = elim (Option-cases (lookup e i w.auctions)) [
    | inl missing ↦ no_change (ground arith)
    | inr (a, found) ↦
        touched i set_paid a found (λ why. pay why.0 why.1)
          (confirm_winner_payment-Touches i u a w found)
  ]

  confirm_winner_payment_by_provider-Touches :
      (i : AuctionId) (o : Option UserId) (a : Auction) (w : World)
      → lookup e i w.auctions ≡ some a
      → Touches w.auctions
          (confirm_winner_payment_by_provider e i o w).1.auctions
          i
          set_paid
          ((a.status ≡ Status.ended) × (is_some a.winner ≡ true))
  unfolding confirm_winner_payment_by_provider
  confirm_winner_payment_by_provider-Touches i o a w found = ground arith

  pub confirm_winner_payment_by_provider-Respects :
      (i : AuctionId) (o : Option UserId) → Respects (confirm_winner_payment_by_provider e i o)
  unfolding confirm_winner_payment_by_provider
  confirm_winner_payment_by_provider-Respects i o w = elim (Option-cases (lookup e i w.auctions)) [
    | inl missing ↦ no_change (ground arith)
    | inr (a, found) ↦
        touched i set_paid a found (λ why. pay_some why.0 why.1)
          (confirm_winner_payment_by_provider-Touches i o a w found)
  ]
    where
      pay_some :
          {a : Auction} → a.status ≡ Status.ended → is_some a.winner ≡ true → Allowed a set_paid
      pay_some {a} ended won = elim (Option-cases a.winner) [
        | inl no_one ↦ absurd (ground arith)
        | inr (u, is_u) ↦ pay ended is_u
      ]

  pub schedule-Respects :
      (i : AuctionId) (u : UserId) → Respects (schedule_winner_payment_lifecycle e i u)
  unfolding schedule_winner_payment_lifecycle
  schedule-Respects i u w =
      trans (free_update i (set_due_at (w.now + payment_expiry_delay_ms)) w.auctions (λ a. window))
        (no_change (ground arith))

  pub mark_auction_notified-Respects : (i : AuctionId) → Respects (mark_auction_notified e i)
  unfolding mark_auction_notified
  mark_auction_notified-Respects i w = free_update i set_notified w.auctions (λ a. notify)

  cancel_auction-Touches :
      (i : AuctionId) (actor : UserId) (a : Auction) (w : World)
      → lookup e i w.auctions ≡ some a
      → Touches w.auctions
          (cancel_auction e i actor w).1.auctions
          i
          set_cancelled
          (a.payment_status ≡ PaymentStatus.active)
  unfolding cancel_auction
  cancel_auction-Touches i actor a w found = grind (arith, announce_cancel-Spares)

  pub cancel_auction-Respects :
      (i : AuctionId) (actor : UserId) → Respects (cancel_auction e i actor)
  unfolding cancel_auction
  cancel_auction-Respects i actor w = elim (Option-cases (lookup e i w.auctions)) [
    | inl missing ↦ no_change (ground arith)
    | inr (a, found) ↦
        touched i set_cancelled a found cancel (cancel_auction-Touches i actor a w found)
  ]

  delete_auction-cases :
      (i : AuctionId) (actor : UserId) (a : Auction) (w : World)
      → lookup e i w.auctions ≡ some a
      → ((delete_auction e i actor w).1.auctions ≡ w.auctions)
        ⊎ (((delete_auction e i actor w).1.auctions ≡ deleted e i w.auctions)
            × (a.payment_status ≡ PaymentStatus.active))
  unfolding delete_auction
  delete_auction-cases i actor a w found = ground arith

  pub delete_auction-Respects :
      (i : AuctionId) (actor : UserId) → Respects (delete_auction e i actor)
  unfolding delete_auction
  delete_auction-Respects i actor w = elim (Option-cases (lookup e i w.auctions)) [
    | inl missing ↦ no_change (ground arith)
    | inr (a, found) ↦ elim (delete_auction-cases i actor a w found) [
      | inl same ↦ no_change same
      | inr (eq, unpaid) ↦ next here (delete i a found unpaid eq)
    ]
  ]

  pub request_immediate_end-Respects :
      (i : AuctionId) (actor : UserId) → Respects (request_immediate_end e i actor)
  unfolding request_immediate_end
  request_immediate_end-Respects i actor w = no_change (ground arith)

  pub sweep-Respects : (ids : List AuctionId) → Respects (sweep e ids)
  unfolding sweep
  sweep-Respects ids w = next here (overdue (λ a. contains ids a.id) w.now refl)

  pub bid_stats-Respects : (u : UserId) (ids : List AuctionId) → Respects (bid_stats e u ids)
  unfolding bid_stats
  bid_stats-Respects u ids w = elim (Bool-cases (is_empty ids)) [
    | inl none_yet ↦ no_change (ground arith)
    | inr some_ids ↦ next here (overdue (λ a. contains ids a.id) w.now (ground arith))
  ]

  pub get_bid_stats_for_user-Respects : (u : UserId) → Respects (get_bid_stats_for_user e u)
  unfolding get_bid_stats_for_user
  get_bid_stats_for_user-Respects u w =
      elim (Option-cases (e.users.find_one (λ x. x.id == u) w.users)) [
        | inl missing ↦ no_change (ground arith)
        | inr (user, found) ↦
            rw found (bid_stats-Respects u (keep e.is_valid_id user.bidded_auctions) w)
      ]

  pub create-Respects : (dto : CreateAuctionDto) (u : UserId) → Respects (create_auction e dto u)
  unfolding create_auction
  create-Respects dto u w = elim (Bool-cases (leb dto.end_time dto.start_time)) [
    | inl refused ↦ no_change (ground arith)
    | inr valid ↦
        next here
          (create (new_auction (e.new_id w.issued) w.now u dto) refl refl refl (ground arith))
  ]
