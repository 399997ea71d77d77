-- ===== src/Notifications/Pages.antt =====
-- Walking the pages of `listNotifications` shows every notification.
use ubuy_backend.Base.{
  ◌==◌, length-eq-count, count-and_true, ℕ, zero, suc, ◌*◌, ◌≡◌, ◌≤◌, ◌∙◌, refl, ap, Bool, true,
  ◌&&◌, some, List, [], ◌∷◌, ◌++◌, keep, count, count-keep, length, arith, take,
}
use ubuy_backend.Domain.{Notification}
use ubuy_backend.Platform.{Env, Sorter}
use ubuy_backend.Platform.World.{World, Result, ok, err}
use ubuy_backend.Pagination.{
  normalized_page-suc, normalized_page, normalized_limit, page_of, pages, pages_lem, take-all,
}
use ubuy_backend.Pagination.Ties.{HasNoTies, count-append, same_sorted_page}
use ubuy_backend.Notifications.Listing.{
  IsLater, ListInput, Listing, filter_of, sorted_query, list_notifications,
}

length-take : (n : ℕ) (c : List Notification) → length (take n c) ≤ n
length-take zero c = omega arith
length-take (suc n) [] = omega arith
length-take (suc n) (x ∷ c) = omega (arith, length-take n c)

abbrev pub items_of : Result Listing → List Notification
items_of (ok listing) = listing.items
items_of (err x) = []

-- No two of the notifications that are asked for were created at the same time.
abbrev pub HasDistinctTimes : ListInput → World → Type 0
HasDistinctTimes input w =
    (t : ℕ) → count (λ m. filter_of input m && m.created_at == t) w.notifications ≤ 1

module _ (e : Env) (newest : ℕ → Sorter IsLater) (input : ListInput) (w : World) where
  -- The items of the pages 1 to n, one page after the other. Each page is the answer to a query of
  -- its own, which orders notifications of the same time in a way of its own.
  abbrev pub walk : ℕ → List Notification
  walk zero = []
  walk (suc n) =
      walk n
      ++ items_of (list_notifications e (newest (suc n)) (record input { page = some (suc n) }) w).0

  abbrev asked : List Notification
  asked = keep (filter_of input) w.notifications

  asked-HasNoTies : HasDistinctTimes input w → HasNoTies Notification.created_at asked
  asked-HasNoTies few t =
      rw (count-keep (λ m. m.created_at == t) (filter_of input) w.notifications) (few t)

  page_items :
      (n : ℕ)
      → items_of (list_notifications e (newest (suc n)) (record input { page = some (suc n) }) w).0
        ≡ page_of (suc n) (normalized_limit input.limit) ((newest (suc n)).sort asked)
  unfolding list_notifications filter_of sorted_query
  page_items n =
      ap (λ p. page_of p (normalized_limit input.limit) ((newest (suc n)).sort asked))
        (normalized_page-suc n)

  count-walk :
      HasDistinctTimes input w
      → (n : ℕ) (q : Notification → Bool)
      → count q (walk n) ≡ count q (pages n (normalized_limit input.limit) ((newest 0).sort asked))
  count-walk few zero q = refl
  count-walk few (suc n) q =
      count-append q (walk n) _
      ∙ omega (
        arith,
        count-walk few n q,
        ap (count q) (page_items n),
        same_sorted_page Notification.created_at (newest (suc n)) (newest 0) q (suc n)
            (normalized_limit input.limit) asked (asked-HasNoTies few),
        count-append q (pages n (normalized_limit input.limit) ((newest 0).sort asked))
            (page_of (suc n) (normalized_limit input.limit) ((newest 0).sort asked)),
      )

  length-sorted : length ((newest 0).sort asked) ≡ count (filter_of input) w.notifications
  length-sorted =
      length-eq-count _
      ∙ (newest 0).count-sort (λ n. true) asked
      ∙ count-keep (λ n. true) (filter_of input) w.notifications
      ∙ count-and_true (filter_of input) w.notifications

  -- If no two of the notifications that the request asks for were created at the same time, walking as
  -- many pages as hold the total shows, for every test, as many notifications that pass it as the
  -- collection has among those that the request asks for: none is missing and none comes twice.
  pub walk_complete :
      (n : ℕ) (q : Notification → Bool)
      → HasDistinctTimes input w
      → count (filter_of input) w.notifications ≤ n * normalized_limit input.limit
      → count q (walk n) ≡ count (λ m. filter_of input m && q m) w.notifications
  walk_complete n q few enough =
      count-walk few n q
      ∙ ap (count q) (
          pages_lem n (normalized_limit input.limit) ((newest 0).sort asked)
          ∙ take-all (n * normalized_limit input.limit) ((newest 0).sort asked)
              (rw length-sorted enough))
      ∙ (newest 0).count-sort q asked
      ∙ count-keep q (filter_of input) w.notifications

module _ (e : Env) (newest : Sorter IsLater) where
  -- Whatever page and limit are asked for, `listNotifications` answers, changes nothing, and shows at
  -- most 100 notifications and at most as many as the limit that it answers, which is at least 1; the
  -- total is the number of notifications that the request asks for.
  pub list_notifications_lem :
      (input : ListInput) (w : World)
      → (l : Listing) × (list_notifications e newest input w ≡ (ok l, w))
        × (length l.items ≤ l.limit)
        × (1 ≤ l.limit)
        × (l.limit ≤ 100)
        × (1 ≤ l.page)
        × (l.total ≡ count (filter_of input) w.notifications)
  unfolding list_notifications page_of normalized_limit normalized_page
  list_notifications_lem input w = (
    _,
    refl,
    length-take (normalized_limit input.limit) _,
    ground arith,
    ground arith,
    ground arith,
    e.notifications.count_documents_lem (filter_of input) w.notifications,
  )
