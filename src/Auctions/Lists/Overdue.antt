-- ===== src/Auctions/Lists/Overdue.antt =====
-- modules/auctions/auctions.service.ts, `findCreatedByUser`: whose auctions it shows, and in what state.
use ubuy_backend.Base.{
  ℕ, zero, suc, ◌-◌, ◌*◌, ◌≡◌, ◌≤◌, refl, ◌∙◌, ap, Bool, not, ◌&&◌, Option, List, [], ◌∷◌, ◌==◌,
  arith, keep, count, take, drop, modify_all,
}
use ubuy_backend.Domain.{UserId, Auction}
use ubuy_backend.Platform.{Env}
use ubuy_backend.Platform.World.{World, ok}
use ubuy_backend.Platform.Store.{is_overdue, mark_ended, swept}
use ubuy_backend.Pagination.{normalized_page, normalized_limit, page_of}
use ubuy_backend.Auctions.Lists.{AuctionList, find_created_by_user}

count-take : (p : Auction → Bool) (n : ℕ) (c : List Auction) → count p (take n c) ≤ count p c
count-take p zero c = omega arith
count-take p (suc n) [] = omega arith
count-take p (suc n) (a ∷ c) = omega (arith, count-take p n c)

count-drop : (p : Auction → Bool) (n : ℕ) (c : List Auction) → count p (drop n c) ≤ count p c
count-drop p zero c = omega arith
count-drop p (suc n) [] = omega arith
count-drop p (suc n) (a ∷ c) = omega (arith, count-drop p n c)

-- What nothing in a list passes, nothing on a page of it passes.
pub count-page_of :
    (p : Auction → Bool) (page limit : ℕ) (c : List Auction)
    → count p c ≡ 0
    → count p (page_of page limit c) ≡ 0
unfolding page_of
count-page_of p page limit c h = omega (
  arith,
  h,
  count-take p limit (drop ((page - 1) * limit) c),
  count-drop p ((page - 1) * limit) c,
)

overdue_swept :
    (own : Auction → Bool) (now : ℕ) (c : List Auction)
    → ((a : Auction) → own (mark_ended a) ≡ own a)
    → count (is_overdue now) (keep own (modify_all (λ a. own a && is_overdue now a) mark_ended c))
      ≡ 0
overdue_swept own now [] h = refl
overdue_swept own now (a ∷ c) h = ground (arith, h a, overdue_swept own now c h)

pub others_kept :
    (own : Auction → Bool) (c : List Auction) → count (λ a. not (own a)) (keep own c) ≡ 0
others_kept own [] = refl
others_kept own (a ∷ c) = ground (arith, others_kept own c)

module _ (e : Env) where
  -- `findCreatedByUser` answers auctions of the user only, and none of them is shown as active after
  -- its end: the update that the method makes before it reads has ended them.
  pub find_created_by_user_lem :
      (u : UserId) (page limit : Option ℕ) (n : ℕ) (w : World)
      → (l : AuctionList) × ((find_created_by_user e u page limit n w).0 ≡ ok l)
        × (count (is_overdue w.now) l.items ≡ 0)
        × (count (λ a. not (a.created_by == u)) l.items ≡ 0)
  unfolding find_created_by_user swept
  find_created_by_user_lem u page limit n w = (
    _,
    refl,
    count-page_of (is_overdue w.now) (normalized_page page) (normalized_limit limit) _ (
        e.last_created.count-sort (is_overdue w.now) _
        ∙ ap (λ c. count (is_overdue w.now) (keep (λ a. a.created_by == u) c))
            (e.auctions.update_many_lem (λ a. a.created_by == u && is_overdue w.now a) mark_ended
              w.auctions)
        ∙ overdue_swept (λ a. a.created_by == u) w.now w.auctions (λ a. refl)),
    count-page_of (λ a. not (a.created_by == u)) (normalized_page page) (normalized_limit limit) _
        (e.last_created.count-sort (λ a. not (a.created_by == u)) _
          ∙ others_kept (λ a. a.created_by == u) _),
  )
