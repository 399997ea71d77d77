-- ===== src/Pagination/Ties.antt =====
-- Queries that sort by a time: each may order documents of the same time in its own way, and two of
-- them agree on a page where no two documents have the same time.
use ubuy_backend.Base.{
  ℕ, zero, suc, ◌+◌, ◌≤◌, ◌≡◌, refl, ◌∙◌, sym, ap, Bool, true, ◌&&◌, ◌==◌, ltb, List, [], ◌∷◌, ◌++◌,
  count, take, drop, map, All, IsSorted, arith, if◌then◌else◌,
}
use ubuy_backend.Platform.{Sorter}
use ubuy_backend.Pagination.{page_of}

pub count-append {ℓ} :
    {A : Type ℓ} (q : A → Bool) (xs ys : List A) → count q (xs ++ ys) ≡ count q xs + count q ys
count-append q [] ys = omega arith
count-append q (x ∷ xs) ys = omega (arith, count-append q xs ys)

count-map : {A : Type 0} (q : A → Bool) (xs : List A) → count q xs ≡ count (λ b. b) (map q xs)
count-map q [] = refl
count-map q (x ∷ xs) = omega (arith, count-map q xs)

map-take : {A : Type 0} (q : A → Bool) (n : ℕ) (xs : List A) → map q (take n xs) ≡ take n (map q xs)
map-take q zero xs = refl
map-take q (suc n) [] = refl
map-take q (suc n) (x ∷ xs) = ap (λ t. q x ∷ t) (map-take q n xs)

map-drop : {A : Type 0} (q : A → Bool) (n : ℕ) (xs : List A) → map q (drop n xs) ≡ drop n (map q xs)
map-drop q zero xs = refl
map-drop q (suc n) [] = refl
map-drop q (suc n) (x ∷ xs) = map-drop q n xs

abbrev one_if : Bool → ℕ
one_if b = if b then 1 else 0

-- A page of a list, seen through a test.
count-page_of :
    {A : Type 0} (q : A → Bool) (page limit : ℕ) (xs : List A)
    → count q (page_of page limit xs) ≡ count (λ b. b) (page_of page limit (map q xs))
unfolding page_of
count-page_of q page limit xs =
    count-map q (page_of page limit xs)
    ∙ ap (count (λ b. b)) (map-take q limit _ ∙ ap (take limit) (map-drop q _ xs))

module _ {A : Type 0} (key : A → ℕ) where
  -- No two elements have the same key.
  abbrev pub HasNoTies : List A → Type 0
  HasNoTies xs = (t : ℕ) → count (λ x. key x == t) xs ≤ 1

  abbrev IsFalling : List A → Type 0
  IsFalling xs = IsSorted (λ a b. key b ≤ key a) xs

  abbrev HasSameCounts : List A → List A → Type 0
  HasSameCounts xs ys = (p : A → Bool) → count p xs ≡ count p ys

  none_above : (n : ℕ) (xs : List A) → All (λ x. key x ≤ n) xs → count (λ x. ltb n (key x)) xs ≡ 0
  none_above n [] h = refl
  none_above n (x ∷ xs) (h, hs) = ground (arith, none_above n xs hs)

  -- The first of a sorted list has the greatest key.
  first_key :
      (x y : A) (xs ys : List A)
      → All (λ z. key z ≤ key x) xs
      → HasSameCounts (x ∷ xs) (y ∷ ys)
      → key y ≤ key x
  first_key x y xs ys h same =
      ground (arith, none_above (key x) xs h, same (λ z. ltb (key x) (key z)))

  count-and : (p q : A → Bool) (xs : List A) → count (λ x. q x && p x) xs ≤ count p xs
  count-and p q [] = omega arith
  count-and p q (x ∷ xs) = ground (arith, count-and p q xs)

  -- With a key that no other element has, a test counts the first only.
  count-first :
      (q : A → Bool) (x : A) (xs : List A)
      → HasNoTies (x ∷ xs)
      → count (λ z. q z && key z == key x) (x ∷ xs) ≡ (if q x then 1 else 0)
  count-first q x xs few = ground (arith, count-and (λ z. key z == key x) q xs, few (key x))

  same_first :
      (q : A → Bool) (x y : A) (xs ys : List A)
      → IsFalling (x ∷ xs)
      → IsFalling (y ∷ ys)
      → HasNoTies (x ∷ xs)
      → HasNoTies (y ∷ ys)
      → HasSameCounts (x ∷ xs) (y ∷ ys)
      → q x ≡ q y
  same_first q x y xs ys h k few few' same = ground (arith, counted)
    where
      same_key : key x ≡ key y
      same_key =
          omega (arith, first_key x y xs ys h.0 same, first_key y x ys xs k.0 (λ p. sym (same p)))

      counted : one_if (q x) ≡ one_if (q y)
      counted =
          sym (count-first q x xs few)
          ∙ same (λ z. q z && key z == key x)
          ∙ ap (λ t. count (λ z. q z && key z == t) (y ∷ ys)) same_key
          ∙ count-first q y ys few'

  same_order :
      (q : A → Bool) (xs ys : List A)
      → IsFalling xs
      → IsFalling ys
      → HasNoTies xs
      → HasNoTies ys
      → HasSameCounts xs ys
      → map q xs ≡ map q ys
  same_order q [] [] h k few few' same = refl
  same_order q [] (y ∷ ys) h k few few' same = absurd (omega (arith, same (λ z. true)))
  same_order q (x ∷ xs) [] h k few few' same = absurd (omega (arith, same (λ z. true)))
  same_order q (x ∷ xs) (y ∷ ys) h k few few' same =
      ap (λ b. b ∷ map q xs) (same_first q x y xs ys h k few few' same)
      ∙ ap (λ t. q y ∷ t)
          (same_order q xs ys h.1 k.1 (λ t. omega (arith, few t)) (λ t. omega (arith, few' t))
            (λ p. omega (arith, same p, ap one_if (same_first p x y xs ys h k few few' same))))

  -- Two orders of the same elements by a key without ties have the same on each page.
  pub same_page :
      (q : A → Bool) (page limit : ℕ) (xs ys : List A)
      → IsFalling xs
      → IsFalling ys
      → HasNoTies xs
      → HasNoTies ys
      → HasSameCounts xs ys
      → count q (page_of page limit xs) ≡ count q (page_of page limit ys)
  same_page q page limit xs ys h k few few' same =
      count-page_of q page limit xs
      ∙ ap (λ t. count (λ b. b) (page_of page limit t)) (same_order q xs ys h k few few' same)
      ∙ sym (count-page_of q page limit ys)

  -- So have two sorted answers to the same query.
  pub same_sorted_page :
      (first_sort second_sort : Sorter {Doc = A} (λ a b. key b ≤ key a)) (q : A → Bool)
      (page limit : ℕ) (c : List A)
      → HasNoTies c
      → count q (page_of page limit (first_sort.sort c))
        ≡ count q (page_of page limit (second_sort.sort c))
  same_sorted_page f g q page limit c few =
      same_page q page limit (f.sort c) (g.sort c) (f.sort-IsSorted c) (g.sort-IsSorted c)
        (λ t. rw (f.count-sort (λ x. key x == t) c) (few t))
        (λ t. rw (g.count-sort (λ x. key x == t) c) (few t))
        (λ p. f.count-sort p c ∙ sym (g.count-sort p c))
