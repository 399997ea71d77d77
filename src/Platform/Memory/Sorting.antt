-- ===== src/Platform/Memory/Sorting.antt =====
-- Sorted queries in memory: insertion sort.
use ubuy_backend.Base.{
  ◌≡◌, refl, ◌==◌, inl, inr, Bool, true, false, ◌&&◌, ◌||◌, List, [], ◌∷◌, arith, count, IsSorted,
  All, ltb, leb, if◌then◌else◌, Bool-cases,
}
use ubuy_backend.Domain.{Auction, Bid}
use ubuy_backend.Platform.{Sorter, IsNewer, IsBetter, IsCreatedLater, IsEndingLater}

-- Insertion sort by a test that says which of two goes first.
module _ {Doc : Type 0} (goes_first : Doc → Doc → Bool) where
  unfoldable pub insert : Doc → List Doc → List Doc
  insert b [] = b ∷ []
  insert b (c ∷ cs) = if goes_first b c then b ∷ c ∷ cs else c ∷ insert b cs

  unfoldable pub sort : List Doc → List Doc
  unfolding insert
  sort [] = []
  sort (b ∷ bs) = insert b (sort bs)

  count-insert :
      (p : Doc → Bool) (b : Doc) (cs : List Doc) → count p (insert b cs) ≡ count p (b ∷ cs)
  unfolding insert
  count-insert p b [] = refl
  count-insert p b (c ∷ cs) = ground (arith, count-insert p b cs)

  pub count-sort : (p : Doc → Bool) (bs : List Doc) → count p (sort bs) ≡ count p bs
  unfolding sort
  count-sort p [] = refl
  count-sort p (b ∷ bs) = ground (arith, count-insert p b (sort bs), count-sort p bs)

-- The order that the test decides.
module _ {Doc : Type 0} (goes_first : Doc → Doc → Bool) (R : Doc → Doc → Type 0) where
  All-insert :
      (d b : Doc) (cs : List Doc) → R d b → All (R d) cs → All (R d) (insert goes_first b cs)
  unfolding insert
  All-insert d b [] r h = (r, tt)
  All-insert d b (c ∷ cs) r h = elim (Bool-cases (goes_first b c)) [
    | inl yes_ ↦ rw yes_ (r, h)
    | inr no_ ↦ rw no_ (h.0, All-insert d b cs r h.1)
  ]

  All-weaken :
      (b c : Doc) (cs : List Doc)
      → ((a b c : Doc) → R a b → R b c → R a c)
      → R b c
      → All (R c) cs
      → All (R b) cs
  All-weaken b c [] trans r h = tt
  All-weaken b c (d ∷ ds) trans r h = (trans b c d r h.0, All-weaken b c ds trans r h.1)

  module _ (trans : (a b c : Doc) → R a b → R b c → R a c)
      (first_ok : (a b : Doc) → goes_first a b ≡ true → R a b)
      (later_ok : (a b : Doc) → goes_first a b ≡ false → R b a) where
    insert-IsSorted :
        (b : Doc) (cs : List Doc) → IsSorted R cs → IsSorted R (insert goes_first b cs)
    unfolding insert
    insert-IsSorted b [] h = (tt, tt)
    insert-IsSorted b (c ∷ cs) h = elim (Bool-cases (goes_first b c)) [
      | inl yes_ ↦ rw yes_ ((first_ok b c yes_, All-weaken b c cs trans (first_ok b c yes_) h.0), h)
      | inr no_ ↦ rw no_ (All-insert c b cs (later_ok b c no_) h.0, insert-IsSorted b cs h.1)
    ]

    pub sort-IsSorted : (bs : List Doc) → IsSorted R (sort goes_first bs)
    unfolding sort
    sort-IsSorted [] = tt
    sort-IsSorted (b ∷ bs) = insert-IsSorted b (sort goes_first bs) (sort-IsSorted bs)

abbrev pub newer : Bid → Bid → Bool
newer a b = leb b.created_at a.created_at

abbrev pub better : Bid → Bid → Bool
better a b = ltb b.amount a.amount || (b.amount == a.amount && leb a.created_at b.created_at)

pub newer_ok : (a b : Bid) → newer a b ≡ true → IsNewer a b
newer_ok a b h = ground arith

pub newer_later : (a b : Bid) → newer a b ≡ false → IsNewer b a
newer_later a b h = ground arith

pub newer_trans : (a b c : Bid) → IsNewer a b → IsNewer b c → IsNewer a c
newer_trans a b c h k = omega arith

pub better_ok : (a b : Bid) → better a b ≡ true → IsBetter a b
better_ok a b h = ground arith

pub better_later : (a b : Bid) → better a b ≡ false → IsBetter b a
better_later a b h = ground arith

pub better_trans : (a b c : Bid) → IsBetter a b → IsBetter b c → IsBetter a c
better_trans a b c h k = ground arith

abbrev pub memory_newest : Sorter IsNewer
memory_newest = record {
  sort = sort newer;
  count-sort = count-sort newer;
  sort-IsSorted = sort-IsSorted newer IsNewer newer_trans newer_ok newer_later;
}

abbrev pub memory_best : Sorter IsBetter
memory_best = record {
  sort = sort better;
  count-sort = count-sort better;
  sort-IsSorted = sort-IsSorted better IsBetter better_trans better_ok better_later;
}

abbrev pub created_later : Auction → Auction → Bool
created_later a b = leb b.created_at a.created_at

abbrev pub ending_later : Auction → Auction → Bool
ending_later a b = leb b.end_time a.end_time

abbrev pub memory_last_created : Sorter IsCreatedLater
memory_last_created = record {
  sort = sort created_later;
  count-sort = count-sort created_later;
  sort-IsSorted =
      sort-IsSorted created_later IsCreatedLater (λ a b c h k. omega arith) (λ a b h. ground arith)
        (λ a b h. ground arith);
}

abbrev pub memory_last_ending : Sorter IsEndingLater
memory_last_ending = record {
  sort = sort ending_later;
  count-sort = count-sort ending_later;
  sort-IsSorted =
      sort-IsSorted ending_later IsEndingLater (λ a b c h k. omega arith) (λ a b h. ground arith)
        (λ a b h. ground arith);
}
