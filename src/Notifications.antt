-- ===== src/Notifications.antt =====
-- modules/notifications/notifications.service.ts: every operation of `NotificationsService`. The
-- text of a message and its metadata are written and never read back, and are left out.
pub mod Dedupe
pub mod Inbox
pub mod Listing
pub mod Pages
use Prim.Native.String.{String}
use ubuy_backend.Base.{
  ℕ, ◌+◌, ◌-◌, ◌*◌, Bool, true, false, not, ◌&&◌, Option, none, some, List, ◌==◌, take, drop, keep,
  length, is_some, ⊤, ltb, if◌then◌else◌,
}
use ubuy_backend.Domain.{UserId, NotificationType, DedupeKey, Notification}
use ubuy_backend.Domain.Equality.{same_key}
use ubuy_backend.Platform.{Env}
use ubuy_backend.Platform.World.{World, Action, ok, gets, pure, ◌>>=◌, ◌>>◌}
use ubuy_backend.Platform.Calls.{guarded}

-- `CreateNotificationInput`
pub record Input : Type 0 where
  pub user_id : UserId
  pub type : NotificationType
  pub title : String
  pub dedupe_key : Option DedupeKey

-- The document that `basePayload` and `isRead: false` make.
abbrev pub fresh : ℕ → ℕ → Input → Notification
fresh id now input = record {
  id = id;
  user_id = input.user_id;
  type = input.type;
  title = input.title;
  dedupe_key = input.dedupe_key;
  is_read = false;
  read_at = none;
  created_at = now;
}

-- The filter `{ userId, dedupeKey }`.
abbrev pub has_key : UserId → DedupeKey → Notification → Bool
has_key u k n = n.user_id == u && same_key n.dedupe_key k

abbrev pub owned_by : UserId → Notification → Bool
owned_by u n = n.user_id == u

abbrev pub is_unread : UserId → Notification → Bool
is_unread u n = n.user_id == u && not n.is_read

abbrev pub is_read_of : UserId → Notification → Bool
is_read_of u n = n.user_id == u && n.is_read

abbrev pub is_the : UserId → ℕ → Notification → Bool
is_the u id n = n.id == id && n.user_id == u

abbrev pub mark_read : ℕ → Notification → Notification
mark_read now n = record n { is_read = true; read_at = some now }

module _ (e : Env) where
  -- The write of `createNotification`, once the call has gone through.
  unfoldable pub store : Input → Option DedupeKey → Action Notification
  store input none w =
      let d = fresh (e.new_id w.issued) w.now input in
      (
        ok d,
        record w {
          notifications = e.notifications.create d w.notifications;
          issued = w.issued + 1;
        },
      )
  store input (some k) w =
      let d = fresh (e.new_id w.issued) w.now input in
      let (found, c) = e.notifications.upsert (has_key input.user_id k) d w.notifications in
      (ok found, record w { notifications = c; issued = w.issued + 1 })

  unfoldable pub create_notification : Input → Action Notification
  unfolding store guarded
  create_notification input = guarded e >> store input input.dedupe_key

  unfoldable pub get_unread_count : UserId → Action ℕ
  get_unread_count u = gets λ w. e.notifications.count_documents (is_unread u) w.notifications

  unfoldable pub mark_as_read : UserId → ℕ → Action (Option Notification)
  mark_as_read u id w =
      let (found, c) =
        e.notifications.find_one_and_update (is_the u id) (λ _. true) (mark_read w.now)
          w.notifications in
      (ok found, record w { notifications = c })

  -- `modifiedCount` is the number of documents that the filter matched, since each one changes.
  unfoldable pub mark_all_as_read : UserId → Action ℕ
  mark_all_as_read u w = (
    ok (e.notifications.count_documents (is_unread u) w.notifications),
    record w {
      notifications = e.notifications.update_many (is_unread u) (mark_read w.now) w.notifications;
    },
  )

  unfoldable pub delete_all_notifications : UserId → Action ℕ
  delete_all_notifications u w = (
    ok (e.notifications.count_documents (owned_by u) w.notifications),
    record w { notifications = e.notifications.delete_many (owned_by u) w.notifications },
  )

  unfoldable pub delete_read_notifications : UserId → Action ℕ
  delete_read_notifications u w = (
    ok (e.notifications.count_documents (is_read_of u) w.notifications),
    record w { notifications = e.notifications.delete_many (is_read_of u) w.notifications },
  )

  unfoldable pub delete_notification : UserId → ℕ → Action Bool
  delete_notification u id w =
      let (deleted, c) = e.notifications.find_one_and_delete (is_the u id) w.notifications in
      (ok (is_some deleted), record w { notifications = c })
