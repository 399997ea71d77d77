-- ===== src/Payments/LinkId.antt =====
-- modules/payments/payments.service.ts: the id of a payment link, `auction_<id>_<time>`, and the
-- auction id that `extractAuctionIdFromLinkId` reads back out of it.
use ubuy_backend.Base.{
  ℕ, ◌+◌, ◌≡◌, refl, Bool, true, ◌&&◌, ◌||◌, Option, none, some, [], ◌∷◌, ◌++◌, ◌==◌, leb, ltb,
  length, arith, if◌then◌else◌,
}
use ubuy_backend.Texts.{Text, underscore, split, second}

-- `'auction'`
abbrev pub prefix : Text
prefix = 97 ∷ 117 ∷ 99 ∷ 116 ∷ 105 ∷ 111 ∷ 110 ∷ []

-- `[a-fA-F0-9]`
abbrev pub is_hex : ℕ → Bool
is_hex x = (leb 97 x && leb x 102) || (leb 65 x && leb x 70) || (leb 48 x && leb x 57)

unfoldable pub all_hex : Text → Bool
all_hex [] = true
all_hex (x ∷ xs) = is_hex x && all_hex xs

-- `OBJECT_ID_REGEX.test`
unfoldable pub is_object_id : Text → Bool
unfolding all_hex
is_object_id t = length t == 24 && all_hex t

abbrev pub if_object_id : Option Text → Option Text
if_object_id none = none
if_object_id (some candidate) = if is_object_id candidate then some candidate else none

-- `none` is the exception.
unfoldable pub extract_auction_id : Text → Option Text
unfolding split is_object_id
extract_auction_id link = if_object_id (second (split underscore link))

-- The id of a new link, from the auction's id and the printed time.
unfoldable pub link_id : Text → Text → Text
link_id id time = prefix ++ underscore ∷ id ++ underscore ∷ time

-- `linkId.length > 50`
unfoldable pub is_too_long : Text → Bool
is_too_long link = ltb 50 (length link)

split-hex :
    (h t : Text)
    → all_hex h ≡ true
    → split underscore (h ++ underscore ∷ t) ≡ h ∷ split underscore t
unfolding split all_hex
split-hex [] t hex = refl
split-hex (x ∷ h) t hex = ground (arith, split-hex h t)

-- From the id of a link that was made for an auction, the auction's id is read back, whatever the
-- time is printed as.
pub extract_auction_id-link_id :
    (id time : Text) → is_object_id id ≡ true → extract_auction_id (link_id id time) ≡ some id
unfolding extract_auction_id link_id is_object_id split
extract_auction_id-link_id id time valid = ground (arith, split-hex id time)

length-append : (s t : Text) → length (s ++ t) ≡ length s + length t
length-append [] t = omega arith
length-append (x ∷ s) t = omega (arith, length-append s t)

-- The id of a link for an auction is not refused as too long exactly if the time is printed with at
-- most 17 characters.
pub is_too_long-link_id :
    (id time : Text)
    → is_object_id id ≡ true
    → (is_too_long (link_id id time) ≡ ltb 17 (length time))
unfolding is_too_long link_id is_object_id
is_too_long-link_id id time valid = ground (arith, length-append id (underscore ∷ time))
