-- ===== src/Changes/Lists.antt =====
-- The list methods that end overdue auctions as changes of auctions.
use ubuy_backend.Base.{ℕ, refl, Option, List, [], ◌∷◌, ◌==◌, map}
use ubuy_backend.Domain.{AuctionId, UserId, Bid}
use ubuy_backend.Platform.{Env}
use ubuy_backend.Pagination.{normalized_page, normalized_limit, page_of}
use ubuy_backend.Auctions.Lifecycle.{contains, sweep}
use ubuy_backend.Auctions.Lists.{BidSummary, bidded_page, find_created_by_user, find_bidded_by_user}
use ubuy_backend.Changes.{here, next, overdue}
use ubuy_backend.Changes.Methods.{Respects}

module _ (e : Env) where
  pub find_created_by_user-Respects :
      (u : UserId) (page limit : Option ℕ) (n : ℕ)
      → Respects e (find_created_by_user e u page limit n)
  unfolding find_created_by_user
  find_created_by_user-Respects u page limit n w =
      next here (overdue (λ a. a.created_by == u) w.now refl)

module _ (e : Env) (summaries : UserId → List Bid → List BidSummary)
    (winners : AuctionId → List Bid → Option UserId) where
  bidded_page-Respects :
      (page limit : Option ℕ) (total : ℕ) (items : List BidSummary)
      → Respects e (bidded_page e summaries winners page limit total items)
  unfolding sweep
  bidded_page-Respects page limit total [] w = here
  bidded_page-Respects page limit total (item ∷ items) w = next here (
      overdue (λ a. contains (map (λ (x : BidSummary). x.auction_id) (item ∷ items)) a.id) w.now
        refl)

  pub find_bidded_by_user-Respects :
      (u : UserId) (page limit : Option ℕ)
      → Respects e (find_bidded_by_user e summaries winners u page limit)
  unfolding find_bidded_by_user
  find_bidded_by_user-Respects u page limit w =
      bidded_page-Respects page limit _
        (page_of (normalized_page page) (normalized_limit limit) (summaries u w.bids)) w
