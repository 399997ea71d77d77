-- ===== src/Changes/Invariant.antt =====
-- What no sequence of allowed changes can break: a winner belongs to an ended auction, a payment to
-- a winner, and a settled sale is final.
use ubuy_backend.Base.{
  ◌≡◌, subst, ◌==◌, inl, inr, true, some, List, arith, All, All-first, All-modify_first,
  All-modify_all, All-snoc, All-remove_first, is_some, first, ◌&&◌, Bool-cases, ◌∙◌,
}
use ubuy_backend.Domain.{AuctionId, Auction, Status, PaymentStatus}
use ubuy_backend.Platform.{Env}
use ubuy_backend.Platform.Store.{
  Patch, apply, has_id, is_overdue, mark_ended, lookup, patched, swept, deleted, lookup-patched,
  lookup-swept, lookup-eq-first, lookup-create_found, lookup-deleted_ne,
}
use ubuy_backend.Changes.{
  Allowed, bid, close, cancel, window, pay, notify, promote, Change, update, overdue, create,
  delete, Changes, here, next,
}

-- An auction with a winner has ended, and one that is paid for has a winner.
pub record IsSound (a : Auction) : Type 0 where
  pub won_ended : is_some a.winner ≡ true → a.status ≡ Status.ended
  pub paid_won : a.payment_status ≡ PaymentStatus.paid → is_some a.winner ≡ true

-- A paid document and what became of it.
pub record IsSettledAs (a b : Auction) : Type 0 where
  pub paid : b.payment_status ≡ PaymentStatus.paid
  pub ended : b.status ≡ Status.ended
  pub winner : b.winner ≡ a.winner
  pub price : b.current_price ≡ a.current_price
  pub bidder : b.highest_bidder ≡ a.highest_bidder

apply-IsSound : (a : Auction) (p : Patch) → Allowed a p → IsSound a → IsSound (apply p a)
apply-IsSound a p (bid x y) s = ground arith
apply-IsSound a p (close x y) s = ground arith
apply-IsSound a p (cancel x) s = ground arith
apply-IsSound a p window s = ground arith
apply-IsSound a p (pay x y) s = ground arith
apply-IsSound a p notify s = ground arith
apply-IsSound a p (promote x y z) s = ground arith

mark_ended-IsSound : (a : Auction) → IsSound a → IsSound (mark_ended a)
mark_ended-IsSound a s = ground arith

apply-IsSettledAs :
    (a : Auction) (p : Patch)
    → Allowed a p
    → IsSound a
    → a.payment_status ≡ PaymentStatus.paid
    → IsSettledAs a (apply p a)
apply-IsSettledAs a p (bid x y) s k = ground arith
apply-IsSettledAs a p (close x y) s k = ground arith
apply-IsSettledAs a p (cancel x) s k = ground arith
apply-IsSettledAs a p window s k = ground arith
apply-IsSettledAs a p (pay x y) s k = ground arith
apply-IsSettledAs a p notify s k = ground arith
apply-IsSettledAs a p (promote x y z) s k = ground arith

IsSettledAs-self :
    (a : Auction) → IsSound a → a.payment_status ≡ PaymentStatus.paid → IsSettledAs a a
IsSettledAs-self a s k = ground arith

IsSettledAs-trans : (a b d : Auction) → IsSettledAs a b → IsSettledAs b d → IsSettledAs a d
IsSettledAs-trans a b d h k = ground arith

module _ (e : Env) where
  abbrev pub AllSound : List Auction → Type 0
  AllSound c = All IsSound c

  pub lookup-IsSound :
      (i : AuctionId) (c : List Auction) {a : Auction}
      → AllSound c
      → lookup e i c ≡ some a
      → IsSound a
  lookup-IsSound i c h k = All-first IsSound (has_id i) c h (rw (lookup-eq-first e i c) at k)

  -- One change keeps every document sound.
  pub Change-IsSound : (c c' : List Auction) → Change e c c' → AllSound c → AllSound c'
  unfolding patched swept deleted
  Change-IsSound c c' (update i p a found allowed eq) h =
      rw (eq, e.auctions.update_one_lem)
        (All-modify_first IsSound (has_id i) (apply p) c h λ x k.
          apply-IsSound x p (subst (λ y. Allowed y p) (the_same found k) allowed)
            (All-first IsSound (has_id i) c h k))
    where
      the_same : {a x : Auction} → lookup e i c ≡ some a → first (has_id i) c ≡ some x → a ≡ x
      the_same f k = cc (lookup-eq-first e i c)
  Change-IsSound c c' (overdue p now eq) h =
      rw (eq, e.auctions.update_many_lem)
        (All-modify_all IsSound (λ a. p a && is_overdue now a) mark_ended c h
          (λ a s _. mark_ended-IsSound a s))
  Change-IsSound c c' (create a active no_winner unpaid eq) h =
      rw (eq, e.auctions.create_lem) (All-snoc IsSound c a h (ground arith))
  Change-IsSound c c' (delete i a found unpaid eq) h =
      rw (eq, e.auctions.delete_one_lem) (All-remove_first IsSound (has_id i) c h)

  -- So does any sequence of them.
  pub Changes-IsSound : (c c' : List Auction) → AllSound c → Changes e c c' → AllSound c'
  Changes-IsSound c c' h here = h
  Changes-IsSound c c'' h (next {c'} before change) =
      Change-IsSound c' c'' change (Changes-IsSound c c' h before)

  abbrev pub StaysSettled : AuctionId → Auction → List Auction → Type 0
  StaysSettled j a c = (b : Auction) × (lookup e j c ≡ some b) × IsSettledAs a b

  one_doc :
      (i j : AuctionId) (a b : Auction) (c : List Auction)
      → (i == j) ≡ true
      → lookup e i c ≡ some b
      → lookup e j c ≡ some a
      → b ≡ a
  one_doc i j a b c same found mine = ground arith

  IsSettledAs-update :
      (i j : AuctionId) (p : Patch) (a b : Auction) (c : List Auction)
      → AllSound c
      → lookup e i c ≡ some b
      → Allowed b p
      → lookup e j c ≡ some a
      → a.payment_status ≡ PaymentStatus.paid
      → StaysSettled j a (patched e i p c)
  IsSettledAs-update i j p a b c h found allowed mine paid = elim (Bool-cases (i == j)) [
    | inl same ↦ (
      apply p a,
      ground (arith, lookup-patched e j c i p),
      apply-IsSettledAs a p (subst (λ x. Allowed x p) (one_doc i j a b c same found mine) allowed)
          (lookup-IsSound j c h mine) paid,
    )
    | inr other ↦ (
      a,
      ground (arith, lookup-patched e j c i p),
      IsSettledAs-self a (lookup-IsSound j c h mine) paid,
    )
  ]

  Change-IsSettledAs :
      (j : AuctionId) (a : Auction) (c c' : List Auction)
      → AllSound c
      → Change e c c'
      → lookup e j c ≡ some a
      → a.payment_status ≡ PaymentStatus.paid
      → StaysSettled j a c'
  Change-IsSettledAs j a c c' h (update i p b found allowed eq) mine paid =
      rw eq (IsSettledAs-update i j p a b c h found allowed mine paid)
  Change-IsSettledAs j a c c' h (overdue p now eq) mine paid = rw eq (
    a,
    ground (arith, lookup-swept e j c p now, lookup-IsSound j c h mine),
    ground (arith, lookup-IsSound j c h mine),
  )
  Change-IsSettledAs j a c c' h (create b active no_winner unpaid eq) mine paid =
      rw eq (a, lookup-create_found e j c b mine, ground (arith, lookup-IsSound j c h mine))
  Change-IsSettledAs j a c c' h (delete i b found unpaid eq) mine paid = rw eq (
    a,
    lookup-deleted_ne e j c i (λ same. ground arith) ∙ mine,
    ground (arith, lookup-IsSound j c h mine),
  )

  -- Once an auction is paid for it stays in the collection, paid and ended, and no sequence of
  -- changes moves its winner, its highest bidder or its price.
  pub settled_is_final :
      (j : AuctionId) (a : Auction) (c c' : List Auction)
      → AllSound c
      → Changes e c c'
      → lookup e j c ≡ some a
      → a.payment_status ≡ PaymentStatus.paid
      → StaysSettled j a c'
  settled_is_final j a c c' h here mine paid =
      (a, mine, IsSettledAs-self a (lookup-IsSound j c h mine) paid)
  settled_is_final j a c c'' h (next {c'} before change) mine paid =
      let (b, found, as_b) = settled_is_final j a c c' h before mine paid in
      let (d, there, as_d) =
        Change-IsSettledAs j b c' c'' (Changes-IsSound c c' h before) change found as_b.paid in
      (d, there, IsSettledAs-trans a b d as_b as_d)
