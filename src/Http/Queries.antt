-- ===== src/Http/Queries.antt =====
-- How the controllers read the query parameters: modules/auctions/auctions.controller.ts,
-- modules/notifications/notifications.controller.ts and modules/wishlist/wishlist.controller.ts.
-- What `Number` makes of a text is a parameter, `none` where it is not a finite number; a negative
-- number is 0, which the services normalise alike, and fractions are left out.
use ubuy_backend.Base.{ℕ, Bool, not, Option, none, some, ◌∷◌, []}
use ubuy_backend.Texts.{Text, codes, same_text, is_text}

pub record ListQuery : Type 0 where
  pub page : Option Text
  pub limit : Option Text
  pub include_meta : Option Text
  pub compact : Option Text

-- `page ? Number(page) : undefined`, or undefined if this is not finite.
abbrev pub number_of : (Text → Option ℕ) → Option Text → Option ℕ
number_of number none = none
number_of number (some []) = none
number_of number (some (x ∷ xs)) = number (x ∷ xs)

-- `includeMeta !== 'false'` and `compact === 'true'`
unfoldable pub wants_meta : Option Text → Bool
unfolding same_text
wants_meta include_meta = not (is_text include_meta (codes "false"))

unfoldable pub is_compact : Option Text → Bool
unfolding same_text
is_compact compact = is_text compact (codes "true")

-- `isRead === undefined ? undefined : isRead.toLowerCase() === 'true'`
unfoldable pub is_read_filter : (Text → Text) → Option Text → Option Bool
unfolding same_text
is_read_filter lower none = none
is_read_filter lower (some text) = some (same_text (lower text) (codes "true"))
