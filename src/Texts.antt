-- ===== src/Texts.antt =====
-- Texts as lists of character codes, and the string operations that the services use on them.
use Prim.Native.Char.{code}
use Prim.Native.String.{String}
use ubuy_backend.Base.{
  ℕ, ◌≡◌, refl, ◌↔◌, Bool, true, false, ◌&&◌, Option, none, some, List, [], ◌∷◌, ◌==◌, arith,
  if◌then◌else◌,
}

abbrev pub Text : Type 0
Text = List ℕ

-- The text of a literal. `String` has its own `[]` and `∷`.
abbrev pub codes : String → Text
codes String.[] = []
codes (String.◌∷◌ c s) = code c ∷ codes s

unfoldable pub same_text : Text → Text → Bool
same_text [] [] = true
same_text [] (y ∷ ys) = false
same_text (x ∷ xs) [] = false
same_text (x ∷ xs) (y ∷ ys) = x == y && same_text xs ys

pub same_text_iff : (s t : Text) → (same_text s t ≡ true) ↔ (s ≡ t)
unfolding same_text
same_text_iff [] [] = (λ h. refl, λ h. refl)
same_text_iff [] (y ∷ t) = (λ h. cc, λ h. cc)
same_text_iff (x ∷ s) [] = (λ h. cc, λ h. cc)
same_text_iff (x ∷ s) (y ∷ t) =
    (λ h. ground (arith, same_text_iff s t), λ h. ground (arith, same_text_iff s t))

pub same_text_self : (s : Text) → same_text s s ≡ true
same_text_self s = (same_text_iff s s).1 refl

-- `o === t`, where `o` may be undefined.
abbrev pub is_text : Option Text → Text → Bool
is_text none t = false
is_text (some s) t = same_text s t

pub is_text_iff : (o : Option Text) (t : Text) → (is_text o t ≡ true) ↔ (o ≡ some t)
is_text_iff none t = (λ h. cc, λ h. cc)
is_text_iff (some s) t = (λ h. cc ((same_text_iff s t).0 h), λ h. (same_text_iff s t).1 (cc))

-- The empty text is falsy, as is one that is missing.
abbrev pub present : Option Text → Option Text
present none = none
present (some []) = none
present (some (x ∷ xs)) = some (x ∷ xs)

-- `s || t`
abbrev pub or_text : Text → Text → Text
or_text [] t = t
or_text (x ∷ xs) t = x ∷ xs

-- `'_'`
abbrev pub underscore : ℕ
underscore = 95

-- `split`: the parts between the separators, the first of which grows while none is met.
abbrev pub grow : ℕ → List Text → List Text
grow x [] = (x ∷ []) ∷ []
grow x (part ∷ parts) = (x ∷ part) ∷ parts

unfoldable pub split : ℕ → Text → List Text
split c [] = [] ∷ []
split c (x ∷ xs) = let rest = split c xs in if x == c then [] ∷ rest else grow x rest

-- `parts[0]`, which `split` always gives.
abbrev pub head : List Text → Text
head [] = []
head (part ∷ parts) = part

-- `parts[1]`
abbrev pub second : List Text → Option Text
second [] = none
second (part ∷ []) = none
second (part ∷ next ∷ parts) = some next
