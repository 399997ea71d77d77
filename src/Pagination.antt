-- ===== src/Pagination.antt =====
-- The pagination of modules/notifications/notifications.service.ts: the normalised page and limit of
-- `listNotifications`, and `skip` and `limit` on a
-- sorted query. A page or a limit that is not given is `none`.
pub mod Ties
use native.Mathlib.Nat.{suc-mul}
use ubuy_backend.Base.{
  ℕ, zero, suc, ◌+◌, ◌-◌, ◌*◌, ◌≡◌, ◌≤◌, ◌∙◌, refl, ap, sym, Option, none, some, List, [], ◌∷◌,
  ◌++◌, take, drop, length, leb, arith, if◌then◌else◌,
}

abbrev pub default_to : ℕ → Option ℕ → ℕ
default_to d none = d
default_to d (some n) = n

-- `Math.max(1, n)` and `Math.min(100, n)`
abbrev pub at_least_1 : ℕ → ℕ
at_least_1 n = if leb n 1 then 1 else n

abbrev pub at_most_100 : ℕ → ℕ
at_most_100 n = if leb 100 n then 100 else n

unfoldable pub normalized_page : Option ℕ → ℕ
normalized_page page = at_least_1 (default_to 1 page)

unfoldable pub normalized_limit : Option ℕ → ℕ
normalized_limit limit = at_most_100 (at_least_1 (default_to 20 limit))

-- `.skip((page - 1) * limit).limit(limit)`
unfoldable pub page_of {ℓ} : {A : Type ℓ} → ℕ → ℕ → List A → List A
page_of page limit items = take limit (drop ((page - 1) * limit) items)

-- The pages 1 to n, one after the other.
abbrev pub pages {ℓ} : {A : Type ℓ} → ℕ → ℕ → List A → List A
pages zero limit items = []
pages (suc n) limit items = pages n limit items ++ page_of (suc n) limit items

suc-add : (m n : ℕ) → suc m + n ≡ suc (m + n)
suc-add m n = omega arith

take-nil {ℓ} : {A : Type ℓ} (n : ℕ) → take {A = A} n [] ≡ []
take-nil zero = refl
take-nil (suc n) = refl

take-add {ℓ} :
    {A : Type ℓ} (m n : ℕ) (xs : List A) → take (m + n) xs ≡ take m xs ++ take n (drop m xs)
take-add zero n xs = ap (λ k. take k xs) (omega arith)
take-add (suc m) n [] = take-nil (suc m + n) ∙ sym (take-nil n)
take-add (suc m) n (x ∷ xs) =
    ap (λ k. take k (x ∷ xs)) (suc-add m n) ∙ ap (λ t. x ∷ t) (take-add m n xs)

pub take-all {ℓ} : {A : Type ℓ} (n : ℕ) (xs : List A) → length xs ≤ n → take n xs ≡ xs
take-all n [] h = take-nil n
take-all zero (x ∷ xs) h = absurd (omega arith)
take-all (suc n) (x ∷ xs) h = ap (λ t. x ∷ t) (take-all n xs (omega arith))

one_back : (n : ℕ) → suc n - 1 ≡ n
one_back n = omega arith

-- The pages 1 to n of a list, one after the other, are its first n * limit elements.
pub pages_lem {ℓ} :
    {A : Type ℓ} (n limit : ℕ) (items : List A) → pages n limit items ≡ take (n * limit) items
unfolding page_of
pages_lem zero limit items = ap (λ k. take k items) {x = 0} {y = 0 * limit} (omega arith)
pages_lem (suc n) limit items =
    ap (λ t. t ++ page_of (suc n) limit items) (pages_lem n limit items)
    ∙ ap (λ k. take (n * limit) items ++ take limit (drop (k * limit) items)) (one_back n)
    ∙ sym (take-add (n * limit) limit items)
    ∙ ap (λ k. take k items) (sym (suc-mul n limit))

pub normalized_page-suc : (n : ℕ) → normalized_page (some (suc n)) ≡ suc n
unfolding normalized_page
normalized_page-suc n = ground arith
