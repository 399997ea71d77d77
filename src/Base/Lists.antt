-- ===== src/Base/Lists.antt =====
-- Lists of documents: first match, update and deletion by a filter, and their laws.
use Prim.Native.Nat.{ℕ, zero, suc, ◌+◌}
use mathlib.Core.Path.{ap, ◌≡◌, refl, subst}
use mathlib.Core.Bool.{Bool, true, false, ◌&&◌}
use mathlib.Core.Logic.{inl, inr}
use mathlib.Core.Option
use mathlib.Core.Option.{Option, none, some}
use mathlib.Core.List.{List, [], ◌∷◌, ◌++◌}
use native.Mathlib.Omega.{arith}
use ubuy_backend.Base.Tests.{if◌then◌else◌, Bool-cases}

module _ {ℓ} {A : Type ℓ} where
  abbrev pub length : List A → ℕ
  length [] = 0
  length (x ∷ xs) = suc (length xs)

  abbrev pub take : ℕ → List A → List A
  take zero xs = []
  take (suc n) [] = []
  take (suc n) (x ∷ xs) = x ∷ take n xs

  abbrev pub drop : ℕ → List A → List A
  drop zero xs = xs
  drop (suc n) [] = []
  drop (suc n) (x ∷ xs) = drop n xs

  -- The first element that passes the test.
  abbrev pub first : (A → Bool) → List A → Option A
  first p [] = none
  first p (x ∷ xs) = if p x then some x else first p xs

  -- All elements that pass the test.
  abbrev pub keep : (A → Bool) → List A → List A
  keep p [] = []
  keep p (x ∷ xs) = let rest = keep p xs in if p x then x ∷ rest else rest

  -- The elements that fail it.
  abbrev pub reject : (A → Bool) → List A → List A
  reject p [] = []
  reject p (x ∷ xs) = let rest = reject p xs in if p x then rest else x ∷ rest

  -- Change the first element that passes the test.
  abbrev pub modify_first : (A → Bool) → (A → A) → List A → List A
  modify_first p f [] = []
  modify_first p f (x ∷ xs) = if p x then f x ∷ xs else x ∷ modify_first p f xs

  -- Change every element that passes the test.
  abbrev pub modify_all : (A → Bool) → (A → A) → List A → List A
  modify_all p f [] = []
  modify_all p f (x ∷ xs) = (if p x then f x else x) ∷ modify_all p f xs

  -- Remove the first element that passes the test.
  abbrev pub remove_first : (A → Bool) → List A → List A
  remove_first p [] = []
  remove_first p (x ∷ xs) = if p x then xs else x ∷ remove_first p xs

  abbrev pub count : (A → Bool) → List A → ℕ
  count p [] = 0
  count p (x ∷ xs) = (if p x then 1 else 0) + count p xs

  abbrev pub All {κ} : (A → Type κ) → List A → Type κ
  All P [] = Unit
  All P (x ∷ xs) = P x × All P xs

  -- No element stands behind one that should come after it.
  abbrev pub IsSorted {κ} : (A → A → Type κ) → List A → Type κ
  IsSorted R [] = Unit
  IsSorted R (x ∷ xs) = All (R x) xs × IsSorted R xs

  pub first_passes : (p : A → Bool) (xs : List A) {x : A} → first p xs ≡ some x → p x ≡ true
  first_passes p [] e = cc
  first_passes p (y ∷ ys) {x} e = ground (arith, first_passes p ys {x = x})

  pub first-append :
      (p : A → Bool) (xs ys : List A)
      → first p (xs ++ ys) ≡ elim (first p xs) [ some x ↦ some x | none ↦ first p ys ]
  first-append p [] ys = refl
  first-append p (x ∷ xs) ys = ground (arith, first-append p xs ys)

-- Lookup after an update: `p` and `q` are filters that agree or exclude each other.
module _ {ℓ} {A : Type ℓ} where
  pub first-modify_first_self :
      (p : A → Bool) (f : A → A) (xs : List A)
      → ((x : A) → p (f x) ≡ p x)
      → first p (modify_first p f xs) ≡ Option.map f (first p xs)
  first-modify_first_self p f [] h = refl
  first-modify_first_self p f (x ∷ xs) h = ground (arith, h x, first-modify_first_self p f xs h)

pub some_inj {ℓ} : {A : Type ℓ} {a b : A} → some a ≡ some b → a ≡ b
some_inj e = cc

-- What holds of every element, under each update.
module _ {ℓ κ} {A : Type ℓ} (P : A → Type κ) where
  pub All-first : (p : A → Bool) (xs : List A) {x : A} → All P xs → first p xs ≡ some x → P x
  All-first p [] h e = cc
  All-first p (y ∷ ys) {x} h e = elim (Bool-cases (p y)) [
    | inl t ↦ subst P (some_inj (rw t at e)) h.0
    | inr f ↦ All-first p ys h.1 (rw f at e)
  ]

  pub All-modify_first :
      (p : A → Bool) (f : A → A) (xs : List A)
      → All P xs
      → ((x : A) → first p xs ≡ some x → P (f x))
      → All P (modify_first p f xs)
  All-modify_first p f [] h k = tt
  All-modify_first p f (x ∷ xs) h k = elim (Bool-cases (p x)) [
    | inl t ↦ rw t (k x (rw t), h.1)
    | inr n ↦ rw n (h.0, All-modify_first p f xs h.1 (λ y e. k y (rw n e)))
  ]

  pub All-modify_all :
      (p : A → Bool) (f : A → A) (xs : List A)
      → All P xs
      → ((x : A) → P x → p x ≡ true → P (f x))
      → All P (modify_all p f xs)
  All-modify_all p f [] h k = tt
  All-modify_all p f (x ∷ xs) h k = elim (Bool-cases (p x)) [
    | inl t ↦ rw t (k x h.0 t, All-modify_all p f xs h.1 k)
    | inr n ↦ rw n (h.0, All-modify_all p f xs h.1 k)
  ]

  pub All-snoc : (xs : List A) (x : A) → All P xs → P x → All P (xs ++ x ∷ [])
  All-snoc [] x h k = (k, tt)
  All-snoc (y ∷ ys) x h k = (h.0, All-snoc ys x h.1 k)

  pub All-remove_first : (p : A → Bool) (xs : List A) → All P xs → All P (remove_first p xs)
  All-remove_first p [] h = tt
  All-remove_first p (x ∷ xs) h = elim (Bool-cases (p x)) [
    | inl t ↦ rw t h.1
    | inr n ↦ rw n (h.0, All-remove_first p xs h.1)
  ]

-- Counting what passes a test.
module _ {ℓ} {A : Type ℓ} where
  pub count-keep : (p q : A → Bool) (xs : List A) → count p (keep q xs) ≡ count (λ x. q x && p x) xs
  count-keep p q [] = refl
  count-keep p q (x ∷ xs) = ground (arith, count-keep p q xs)

  pub count-zero {κ} :
      (P : A → Type κ) (p : A → Bool) (xs : List A)
      → All P xs
      → ((x : A) → P x → p x ≡ false)
      → count p xs ≡ 0
  count-zero P p [] h k = refl
  count-zero P p (x ∷ xs) h k = rw (k x h.0) (omega (arith, count-zero P p xs h.1 k))

-- Nothing that passes is left.
pub count-reject {ℓ} : {A : Type ℓ} (p : A → Bool) (c : List A) → count p (reject p c) ≡ 0
count-reject p [] = refl
count-reject p (x ∷ c) = ground (arith, count-reject p c)

pub append_assoc {ℓ} : {A : Type ℓ} (a b c : List A) → (a ++ b) ++ c ≡ a ++ (b ++ c)
append_assoc [] b c = refl
append_assoc (x ∷ a) b c = ap (λ t. x ∷ t) (append_assoc a b c)

pub length-eq-count {ℓ} : {A : Type ℓ} (c : List A) → length c ≡ count (λ x. true) c
length-eq-count [] = refl
length-eq-count (x ∷ c) = omega (arith, length-eq-count c)

pub count-and_true {ℓ} :
    {A : Type ℓ} (p : A → Bool) (c : List A) → count (λ x. p x && true) c ≡ count p c
count-and_true p [] = refl
count-and_true p (x ∷ c) = ground (arith, count-and_true p c)
