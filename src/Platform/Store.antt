-- ===== src/Platform/Store.antt =====
-- The calls that the services make on the auction collection, the queue and the lock, as methods,
-- and how a read after a write relates to the read before it.
use ubuy_backend.Base.{
  ℕ, ◌≡◌, ◌≢◌, refl, ◌∙◌, Bool, true, ◌&&◌, Option, none, some, List, [], ◌∷◌, ◌++◌, arith, ◌==◌,
  ltb, leb, first, modify_first, modify_all, remove_first, if◌then◌else◌,
}
use ubuy_backend.Domain.{AuctionId, UserId, Auction, Status, PaymentStatus, WinnerHistoryEntry}
use ubuy_backend.Domain.Equality.{is_active}
use ubuy_backend.Platform.{Env, update_if}

-- The update documents: what a `save()`, `findByIdAndUpdate` or `findOneAndUpdate` sets.
pub data Patch : Type 0 where
  set_ended : Option UserId → Patch
  set_cancelled : Patch
  set_due_at : ℕ → Patch
  set_paid : Patch
  set_notified : Patch
  set_bid : ℕ → UserId → Patch
  set_next_winner : WinnerHistoryEntry → UserId → ℕ → Patch

abbrev pub apply : Patch → Auction → Auction
apply (set_ended w) a = record a { status = Status.ended; winner = w }
apply set_cancelled a = record a { status = Status.cancelled; winner = none; payment_due_at = none }
apply (set_due_at t) a = record a { payment_due_at = some t }
apply set_paid a = record a { payment_status = PaymentStatus.paid }
apply set_notified a = record a { notified = true }
apply (set_bid x u) a = record a { current_price = x; highest_bidder = some u }
apply (set_next_winner h u x) a = record a {
  winner_history = a.winner_history ++ h ∷ [];
  winner = some u;
  highest_bidder = some u;
  current_price = x;
  payment_status = PaymentStatus.active;
}

abbrev pub apply_to : Patch → Option Auction → Option Auction
apply_to p none = none
apply_to p (some a) = some (apply p a)

abbrev pub has_id : AuctionId → Auction → Bool
has_id i a = a.id == i

-- The filter `{ status: 'ACTIVE', currentPrice: { $lt: amount } }`.
abbrev pub takes_bid : ℕ → Auction → Bool
takes_bid x a = is_active a.status && ltb a.current_price x

-- The filter `{ endTime: { $lte: now }, status: 'ACTIVE' }` and the update `{ status: 'ENDED' }`.
abbrev pub is_overdue : ℕ → Auction → Bool
is_overdue now a = leb a.end_time now && is_active a.status

abbrev pub mark_ended : Auction → Auction
mark_ended a = record a { status = Status.ended }

-- What the sweep makes of one document.
abbrev pub swept_doc : (Auction → Bool) → ℕ → Option Auction → Option Auction
swept_doc p now none = none
swept_doc p now (some a) = some (if p a && is_overdue now a then mark_ended a else a)

module _ (e : Env) where
  -- `auctionModel.findById`
  unfoldable pub lookup : AuctionId → List Auction → Option Auction
  lookup i c = e.auctions.find_one (has_id i) c

  -- `document.save()` and `findByIdAndUpdate`
  unfoldable pub patched : AuctionId → Patch → List Auction → List Auction
  patched i p c = e.auctions.update_one (has_id i) (apply p) c

  -- `findOneAndUpdate({ _id, status: 'ACTIVE', currentPrice: { $lt: amount } }, …)`
  unfoldable pub bid_if_higher :
      AuctionId → UserId → ℕ → List Auction → Option Auction × List Auction
  bid_if_higher i u x c =
      e.auctions.find_one_and_update (has_id i) (takes_bid x) (apply (set_bid x u)) c

  -- `updateMany({ …, endTime: { $lte: now }, status: 'ACTIVE' }, { status: 'ENDED' })`
  unfoldable pub swept : (Auction → Bool) → ℕ → List Auction → List Auction
  swept p now c = e.auctions.update_many (λ a. p a && is_overdue now a) mark_ended c

  unfoldable pub deleted : AuctionId → List Auction → List Auction
  deleted i c = e.auctions.delete_one (has_id i) c

  abbrev pub bid_outcome :
      AuctionId → UserId → ℕ → List Auction → Option Auction → Option Auction × List Auction
  bid_outcome i u x c none = (none, c)
  bid_outcome i u x c (some a) =
      if takes_bid x a then (some (apply (set_bid x u) a), patched i (set_bid x u) c) else (none, c)

  pub lookup-eq-first : (i : AuctionId) (c : List Auction) → lookup i c ≡ first (has_id i) c
  unfolding lookup
  lookup-eq-first i c = e.auctions.find_one_lem (has_id i) c

apply-id : (p : Patch) (a : Auction) → (apply p a).id ≡ a.id
apply-id (set_ended w) a = refl
apply-id _ a = refl

first-patched :
    (i j : AuctionId) (p : Patch) (c : List Auction)
    → first (has_id j) (modify_first (has_id i) (apply p) c)
      ≡ (if i == j then apply_to p (first (has_id j) c) else first (has_id j) c)
first-patched i j p [] = ground arith
first-patched i j p (a ∷ c) = ground (arith, apply-id p a, first-patched i j p c)

modify_first_missing :
    (i : AuctionId) (p : Patch) (c : List Auction)
    → first (has_id i) c ≡ none
    → modify_first (has_id i) (apply p) c ≡ c
modify_first_missing i p [] h = refl
modify_first_missing i p (a ∷ c) h = ground (arith, modify_first_missing i p c)

first-swept :
    (p : Auction → Bool) (now : ℕ) (j : AuctionId) (c : List Auction)
    → first (has_id j) (modify_all (λ a. p a && is_overdue now a) mark_ended c)
      ≡ swept_doc p now (first (has_id j) c)
first-swept p now j [] = refl
first-swept p now j (a ∷ c) = ground (arith, first-swept p now j c)

first-snoc :
    (j : AuctionId) (d : Auction) (c : List Auction)
    → first (has_id d.id) c ≡ none
    → first (has_id j) (c ++ d ∷ []) ≡ (if d.id == j then some d else first (has_id j) c)
first-snoc j d [] h = ground arith
first-snoc j d (a ∷ c) h = ground (arith, first-snoc j d c)

first-remove_first :
    (i j : AuctionId) (c : List Auction)
    → i ≢ j
    → first (has_id j) (remove_first (has_id i) c) ≡ first (has_id j) c
first-remove_first i j [] h = refl
first-remove_first i j (a ∷ c) h = ground (arith, first-remove_first i j c h)

first-snoc_found :
    (j : AuctionId) (d : Auction) (c : List Auction) {a : Auction}
    → first (has_id j) c ≡ some a
    → first (has_id j) (c ++ d ∷ []) ≡ some a
first-snoc_found j d [] h = cc
first-snoc_found j d (b ∷ c) {a} h = ground (arith, first-snoc_found j d c {a = a})

module _ (e : Env) (j : AuctionId) (c : List Auction) where
  -- Reads after writes.
  pub lookup-patched :
      (i : AuctionId) (p : Patch)
      → lookup e j (patched e i p c) ≡ (if i == j then apply_to p (lookup e j c) else lookup e j c)
  unfolding patched
  lookup-patched i p =
      rw (lookup-eq-first e j, lookup-eq-first e j c, e.auctions.update_one_lem)
        (first-patched i j p c)

  pub patched_missing : (p : Patch) → lookup e j c ≡ none → patched e j p c ≡ c
  unfolding patched
  patched_missing p h =
      e.auctions.update_one_lem (has_id j) (apply p) c
      ∙ modify_first_missing j p c (rw (lookup-eq-first e j c) at h)

  pub lookup-swept :
      (p : Auction → Bool) (now : ℕ) → lookup e j (swept e p now c) ≡ swept_doc p now (lookup e j c)
  unfolding swept
  lookup-swept p now =
      rw (lookup-eq-first e j, lookup-eq-first e j c, e.auctions.update_many_lem)
        (first-swept p now j c)

  pub lookup-create :
      (d : Auction)
      → lookup e d.id c ≡ none
      → lookup e j (e.auctions.create d c) ≡ (if d.id == j then some d else lookup e j c)
  lookup-create d h =
      rw (lookup-eq-first e j, lookup-eq-first e j c, e.auctions.create_lem)
        (first-snoc j d c (rw (lookup-eq-first e d.id c) at h))

  -- A document that is there is still found after another one is created.
  pub lookup-create_found :
      (d : Auction) {a : Auction}
      → lookup e j c ≡ some a
      → lookup e j (e.auctions.create d c) ≡ some a
  lookup-create_found d h =
      rw (lookup-eq-first e j, e.auctions.create_lem)
        (first-snoc_found j d c (rw (lookup-eq-first e j c) at h))

  pub lookup-deleted_ne : (i : AuctionId) → i ≢ j → lookup e j (deleted e i c) ≡ lookup e j c
  unfolding deleted
  lookup-deleted_ne i h =
      rw (lookup-eq-first e j, lookup-eq-first e j c, e.auctions.delete_one_lem)
        (first-remove_first i j c h)

module _ (e : Env) (i : AuctionId) (u : UserId) (x : ℕ) (c : List Auction) where
  -- The conditional update: it answers the changed document, or null and changes nothing.
  pub bid_if_higher_lem : bid_if_higher e i u x c ≡ bid_outcome e i u x c (lookup e i c)
  unfolding bid_if_higher patched
  bid_if_higher_lem =
      rw (lookup-eq-first e i c, e.auctions.find_one_and_update_lem) (same (first (has_id i) c))
    where
      same :
          (o : Option Auction)
          → update_if (takes_bid x) (apply (set_bid x u)) (has_id i) c o ≡ bid_outcome e i u x c o
      same none = refl
      same (some a) = rw e.auctions.update_one_lem
