-- ===== src/Auctions/Lists/Shared.antt =====
-- modules/auctions/auctions.service.ts: the cached list of one category under the key of another.
use ubuy_backend.Base.{ℕ, ◌+◌, ◌≡◌, ◌<◌, refl, ◌∙◌, ap, false, not, some, List, ◌∷◌, count}
use ubuy_backend.Texts.{Text, present}
use ubuy_backend.Platform.{Env}
use ubuy_backend.Platform.World.{World, ok}
use ubuy_backend.Pagination.{normalized_page, normalized_limit}
use ubuy_backend.Auth.Keys.{Keys}
use ubuy_backend.Auctions.Cache.{Ticket, Event, resolves, hit, ask, key_of, run}
use ubuy_backend.Auctions.Cache.Single.{ask-single}
use ubuy_backend.Auctions.Lists.{
  AuctionList, category, in_category, fetch_category, get_list_response_cache_key,
}
use ubuy_backend.Auctions.Lists.Overdue.{count-page_of, others_kept}

-- The key of a list of a category, which is not empty.
abbrev pub category_key : Keys → ℕ → Text → Text
category_key k limit name = get_list_response_cache_key k category 1 limit (some name)

keys_meet :
    (k : Keys) (limit : ℕ) (a b : Text)
    → present (some a) ≡ some a
    → present (some b) ≡ some b
    → k.lower a ≡ k.lower b
    → category_key k limit a ≡ category_key k limit b
unfolding get_list_response_cache_key
keys_meet k limit a b some_a some_b h = rw (some_a, some_b, h) refl

module _ (e : Env) (k : Keys) where
  -- Two categories, not empty, that are equal in lower case share a key, though the query tells them apart: while the
  -- cached page of the one is fresh, the request for the other is answered with it, that is with
  -- auctions of the one category only.
  pub get_list_response_cache_key-shared :
      (ttl limit later s : ℕ) (xs : List (Event AuctionList)) (t : Ticket) (a b : Text) (w : World)
      → present (some a) ≡ some a
      → present (some b) ≡ some b
      → k.lower a ≡ k.lower b
      → key_of t (run ttl xs).running ≡ some (category_key k limit a)
      → later < s + ttl
      → (page : AuctionList) × ((fetch_category e a (some 1) (some limit) false 0 w).0 ≡ ok page)
        × ((ask (category_key k limit b) later (run ttl (resolves t page s ∷ xs))).0 ≡ hit page)
        × (count (λ x. not (in_category a x)) page.items ≡ 0)
  unfolding fetch_category
  get_list_response_cache_key-shared ttl limit later s xs t a b w some_a some_b same running soon =
      (
        _,
        refl,
        (ask-single ttl xs t (category_key k limit b) _ 0 s later
            (running ∙ ap some (keys_meet k limit a b some_a some_b same)) soon).1,
        count-page_of (λ x. not (in_category a x)) (normalized_page (some 1))
            (normalized_limit (some limit)) _
            (e.last_ending.count-sort (λ x. not (in_category a x)) _
              ∙ others_kept (in_category a) w.auctions),
      )
