-- ===== src/Metrics/Routes.antt =====
-- `normalizeRoute` of common/observability/observability-metrics.service.ts: the query is cut off,
-- and a segment that is a number, an object id or a UUID is replaced by `:id`.
use ubuy_backend.Base.{
  ℕ, zero, suc, Bool, true, false, ◌&&◌, ◌||◌, List, [], ◌∷◌, ◌++◌, ◌==◌, leb, if◌then◌else◌, map,
}
use ubuy_backend.Texts.{Text, split, head}
use ubuy_backend.Payments.LinkId.{is_hex, is_object_id}

-- `'/'`, `'?'`, `':'` and `'-'`
abbrev pub slash : ℕ
slash = 47

abbrev pub question_mark : ℕ
question_mark = 63

abbrev pub hyphen : ℕ
hyphen = 45

-- `':id'`
abbrev pub id_segment : Text
id_segment = 58 ∷ 105 ∷ 100 ∷ []

-- `[0-9]`, `[1-5]` and `[89abAB]`
abbrev pub is_digit : ℕ → Bool
is_digit x = leb 48 x && leb x 57

abbrev pub is_version : ℕ → Bool
is_version x = leb 49 x && leb x 53

abbrev pub is_variant : ℕ → Bool
is_variant x = x == 56 || x == 57 || x == 97 || x == 98 || x == 65 || x == 66

unfoldable pub all_digits : Text → Bool
all_digits [] = true
all_digits (x ∷ xs) = is_digit x && all_digits xs

-- `/^[0-9]+$/.test`
unfoldable pub is_number : Text → Bool
is_number [] = false
is_number (x ∷ xs) = is_digit x && all_digits xs

-- A regular expression that is a sequence of character classes.
abbrev pub repeat : ℕ → (ℕ → Bool) → List (ℕ → Bool)
repeat zero p = []
repeat (suc n) p = p ∷ repeat n p

unfoldable pub matches : List (ℕ → Bool) → Text → Bool
matches [] [] = true
matches [] (x ∷ xs) = false
matches (p ∷ ps) [] = false
matches (p ∷ ps) (x ∷ xs) = p x && matches ps xs

abbrev pub uuid_pattern : List (ℕ → Bool)
uuid_pattern =
    repeat 8 is_hex
    ++ (λ x. x == hyphen) ∷ repeat 4 is_hex
    ++ (λ x. x == hyphen) ∷ is_version ∷ repeat 3 is_hex
    ++ (λ x. x == hyphen) ∷ is_variant ∷ repeat 3 is_hex
    ++ (λ x. x == hyphen) ∷ repeat 12 is_hex

unfoldable pub is_uuid : Text → Bool
unfolding matches
is_uuid segment = matches uuid_pattern segment

unfoldable pub normalized_segment : Text → Text
normalized_segment [] = []
normalized_segment (x ∷ xs) =
    let segment = x ∷ xs in
    if is_number segment
    then id_segment
    else if is_object_id segment
    then id_segment
    else if is_uuid segment
    then id_segment
    else segment

-- `join`
unfoldable pub join_with : ℕ → List Text → Text
join_with c [] = []
join_with c (part ∷ []) = part
join_with c (part ∷ next ∷ parts) = part ++ c ∷ join_with c (next ∷ parts)

unfoldable pub normalize_route : Text → Text
normalize_route path =
    join_with slash (map normalized_segment (split slash (head (split question_mark path))))
