-- ===== src/Tests/Lists.antt =====
-- The theorems on listing notifications, at two of them.
use ubuy_backend.Base.{
  ℕ, ◌*◌, ◌≡◌, ◌≤◌, ◌==◌, ◌&&◌, leb, Bool, true, false, none, some, arith, count,
}
use ubuy_backend.Domain.{Notification}
use ubuy_backend.Tests.Market.{env, inbox_of_8}
use ubuy_backend.Platform.{Sorter}
use ubuy_backend.Platform.Memory.Sorting.{sort, count-sort, sort-IsSorted}
use ubuy_backend.Pagination.{normalized_limit}
use ubuy_backend.Notifications.Listing.{IsLater, ListInput, filter_of}
use ubuy_backend.Notifications.Pages.{walk, HasDistinctTimes, walk_complete}

abbrev pub later : Notification → Notification → Bool
later a b = leb b.created_at a.created_at

pub later_ok : (a b : Notification) → later a b ≡ true → IsLater a b
later_ok a b h = ground arith

pub later_not : (a b : Notification) → later a b ≡ false → IsLater b a
later_not a b h = ground arith

pub later_trans : (a b c : Notification) → IsLater a b → IsLater b c → IsLater a c
later_trans a b c h k = omega arith

abbrev pub latest_first : Sorter IsLater
latest_first = record {
  sort = sort later;
  count-sort = count-sort later;
  sort-IsSorted = sort-IsSorted later IsLater later_trans later_ok later_not;
}

abbrev unread_of_8 : ListInput
unread_of_8 = record { user_id = 8; page = none; limit = some 1; is_read = some false; type = none }

listed_few : count (filter_of unread_of_8) inbox_of_8.notifications ≤ 1 * normalized_limit (some 1)
unfolding filter_of normalized_limit
listed_few = omega arith

-- Whatever the page.
abbrev each_latest_first : ℕ → Sorter IsLater
each_latest_first page = latest_first

one_a_time : HasDistinctTimes unread_of_8 inbox_of_8
unfolding filter_of
one_a_time t = ground arith

walk_complete_example :
    count (λ (m : Notification). m.id == 1000) (walk env each_latest_first unread_of_8 inbox_of_8 1)
    ≡ count (λ (m : Notification). filter_of unread_of_8 m && m.id == 1000) inbox_of_8.notifications
walk_complete_example =
    walk_complete env each_latest_first unread_of_8 inbox_of_8 1 (λ m. m.id == 1000) one_a_time
      listed_few
