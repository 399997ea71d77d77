-- ===== src/Notifications/Listing.antt =====
-- `listNotifications` of modules/notifications/notifications.service.ts. The sorted query is a
-- parameter, `newest`.
use ubuy_backend.Base.{ℕ, ◌≤◌, Bool, true, false, not, ◌&&◌, ◌==◌, Option, none, some, List, keep}
use ubuy_backend.Domain.{UserId, NotificationType, Notification}
use ubuy_backend.Platform.{Env, Sorter}
use ubuy_backend.Platform.World.{Action, ok}
use ubuy_backend.Pagination.{normalized_page, normalized_limit, page_of}

-- `sort({ createdAt: -1 })`
abbrev pub IsLater : Notification → Notification → Type 0
IsLater a b = b.created_at ≤ a.created_at

-- `ListNotificationsInput`
pub record ListInput : Type 0 where
  pub user_id : UserId
  pub page : Option ℕ
  pub limit : Option ℕ
  pub is_read : Option Bool
  pub type : Option NotificationType

pub record Listing : Type 0 where
  pub page : ℕ
  pub limit : ℕ
  pub total : ℕ
  pub items : List Notification

abbrev pub same_bool : Bool → Bool → Bool
same_bool true b = b
same_bool false b = not b

abbrev pub same_type : NotificationType → NotificationType → Bool
same_type NotificationType.auction_won NotificationType.auction_won = true
same_type NotificationType.outbid NotificationType.outbid = true
same_type NotificationType.payment_reminder NotificationType.payment_reminder = true
same_type NotificationType.payment_success NotificationType.payment_success = true
same_type NotificationType.system NotificationType.system = true
same_type _ _ = false

-- A field of the filter that is left out passes all.
abbrev pub read_passes : Option Bool → Bool → Bool
read_passes none r = true
read_passes (some b) r = same_bool b r

abbrev pub type_passes : Option NotificationType → NotificationType → Bool
type_passes none t = true
type_passes (some s) t = same_type s t

unfoldable pub filter_of : ListInput → Notification → Bool
filter_of input n =
    n.user_id == input.user_id
    && read_passes input.is_read n.is_read
    && type_passes input.type n.type

-- `newest` is the order of this one query. Documents of the same time come in any order in it, which
-- another query need not keep.
module _ (e : Env) (newest : Sorter IsLater) where
  unfoldable pub sorted_query : ListInput → List Notification → List Notification
  sorted_query input c = newest.sort (keep (filter_of input) c)

  unfoldable pub list_notifications : ListInput → Action Listing
  unfolding sorted_query
  list_notifications input w =
      let page = normalized_page input.page in
      let limit = normalized_limit input.limit in
      (
        ok (record {
          page = page;
          limit = limit;
          total = e.notifications.count_documents (filter_of input) w.notifications;
          items = page_of page limit (sorted_query input w.notifications);
        }),
        w,
      )
