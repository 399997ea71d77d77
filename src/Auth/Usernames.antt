-- ===== src/Auth/Usernames.antt =====
-- modules/auth/auth.service.ts: `toUsernameBase`, `generateUniqueUsername` and
-- `checkUsernameUnique`.
use ubuy_backend.Base.{
  ℕ, zero, suc, ◌+◌, ◌-◌, Bool, true, false, ◌&&◌, ◌||◌, [], ◌∷◌, ◌++◌, ◌==◌, leb, is_none, take,
  drop, length, if◌then◌else◌,
}
use ubuy_backend.Texts.{Text, codes, underscore, or_text}
use ubuy_backend.Platform.{Env}
use ubuy_backend.Platform.World.{World, Action, ok, pure, ◌>>=◌}
use ubuy_backend.Users.{has_username, find_by_username}
use ubuy_backend.Auth.Keys.{Keys}
use ubuy_backend.Auth.Codes.{decimal}

-- `[a-z0-9_]`
abbrev pub is_name_char : ℕ → Bool
is_name_char x = (leb b'a' x && leb x b'z') || (leb b'0' x && leb x b'9') || x == underscore

-- `.replace(/[^a-z0-9_]/g, '_')`, on one character
abbrev pub to_name_char : ℕ → ℕ
to_name_char x = if is_name_char x then x else underscore

abbrev pub starts_low : Text → Bool
starts_low [] = false
starts_low (x ∷ xs) = x == underscore

-- `.replace(/_+/g, '_')`
unfoldable pub collapse : Text → Text
collapse [] = []
collapse (x ∷ xs) =
    let rest = collapse xs in if x == underscore && starts_low rest then rest else x ∷ rest

-- `.replace(/^_+|_+$/g, '')`, the two ends
unfoldable pub trim_start : Text → Text
trim_start [] = []
trim_start (x ∷ xs) = let rest = trim_start xs in if x == underscore then rest else x ∷ xs

abbrev pub is_nil : Text → Bool
is_nil [] = true
is_nil (x ∷ xs) = false

unfoldable pub trim_end : Text → Text
trim_end [] = []
trim_end (x ∷ xs) =
    let rest = trim_end xs in if x == underscore && is_nil rest then [] else x ∷ rest

abbrev pub to_name_chars : Text → Text
to_name_chars [] = []
to_name_chars (x ∷ xs) = to_name_char x ∷ to_name_chars xs

-- The number of failed attempts before the fallback.
abbrev pub max_attempts : ℕ
max_attempts = 15

-- `.slice(-8)`
abbrev pub last_8 : Text → Text
last_8 t = drop (length t - 8) t

module _ (k : Keys) where
  unfoldable pub to_username_base : Text → Text
  unfolding collapse trim_start trim_end
  to_username_base value =
      or_text (trim_end (trim_start (collapse (to_name_chars (k.lower value))))) (codes "user")

  -- The suffix of an attempt, given the number of draws: none at the first, then `_` and four digits.
  unfoldable pub suffix_of : ℕ → ℕ → Text
  unfolding decimal
  suffix_of zero draws = []
  suffix_of (suc n) draws = underscore ∷ decimal (1000 + k.random_below draws 9000)

  unfoldable pub candidate : Text → ℕ → ℕ → Text
  unfolding suffix_of
  candidate base attempt draws = take 30 (base ++ suffix_of attempt draws)

  -- A later attempt has drawn a number.
  abbrev pub drawn : ℕ → World → World
  drawn zero w = w
  drawn (suc n) w = record w { draws = w.draws + 1 }

  unfoldable pub fallback_name : ℕ → Text
  unfolding decimal
  fallback_name now = codes "user_" ++ last_8 (decimal now)

module _ (e : Env) (k : Keys) where
  unfoldable pub is_free : Text → World → Bool
  is_free name w = is_none (e.users.find_one (has_username name) w.users)

  -- The loop, with the rounds that are left and the number of the attempt.
  unfoldable pub try_names : ℕ → ℕ → Text → World → Text × World
  unfolding candidate is_free fallback_name
  try_names zero attempt base w = (fallback_name k w.now, w)
  try_names (suc left) attempt base w =
      let rest = try_names left (suc attempt) base (drawn k attempt w) in
      if is_free (candidate k base attempt w.draws) w
      then (candidate k base attempt w.draws, drawn k attempt w)
      else rest

  unfoldable pub generate_unique_username : Text → Action Text
  unfolding to_username_base try_names
  generate_unique_username seed w =
      let (name, w') = try_names max_attempts 0 (take 22 (to_username_base k seed)) w in
      (ok name, w')

  -- `isAvailable`
  unfoldable pub check_username_unique : Text → Action Bool
  unfolding find_by_username
  check_username_unique name = do existing ← find_by_username e name; pure (is_none existing)
