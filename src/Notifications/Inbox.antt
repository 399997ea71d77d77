-- ===== src/Notifications/Inbox.antt =====
-- Reading and deleting touch the user's own notifications only, and the counts are right.
use ubuy_backend.Base.{
  ℕ, ◌≡◌, ◌≢◌, refl, ◌&&◌, ◌∙◌, Bool, true, List, [], ◌∷◌, arith, first, count, count-reject,
  modify_first, modify_all, reject, remove_first, keep, ap, sym,
}
use ubuy_backend.Domain.{UserId, Notification}
use ubuy_backend.Platform.{Env, update_if}
use ubuy_backend.Platform.World.{World, ok}
use ubuy_backend.Notifications.{
  owned_by, is_unread, is_the, is_read_of, mark_read, get_unread_count, mark_as_read,
  mark_all_as_read, delete_all_notifications, delete_read_notifications, delete_notification,
}

-- What another user sees of a collection.
abbrev pub inbox : UserId → List Notification → List Notification
inbox v c = keep (owned_by v) c

count-modify_all :
    (u : UserId) (now : ℕ) (c : List Notification)
    → count (is_unread u) (modify_all (is_unread u) (mark_read now) c) ≡ 0
count-modify_all u now [] = refl
count-modify_all u now (n ∷ c) = ground (arith, count-modify_all u now c)

inbox-modify_all :
    (u v : UserId) (now : ℕ) (c : List Notification)
    → u ≢ v
    → inbox v (modify_all (is_unread u) (mark_read now) c) ≡ inbox v c
inbox-modify_all u v now [] h = refl
inbox-modify_all u v now (n ∷ c) h = ground (arith, inbox-modify_all u v now c h)

inbox-reject :
    (u v : UserId) (p : Notification → Bool) (c : List Notification)
    → u ≢ v
    → inbox v (reject (λ n. owned_by u n && p n) c) ≡ inbox v c
inbox-reject u v p [] h = refl
inbox-reject u v p (n ∷ c) h = ground (arith, inbox-reject u v p c h)

inbox-remove_first :
    (u v : UserId) (id : ℕ) (c : List Notification)
    → u ≢ v
    → inbox v (remove_first (is_the u id) c) ≡ inbox v c
inbox-remove_first u v id [] h = refl
inbox-remove_first u v id (n ∷ c) h = ground (arith, inbox-remove_first u v id c h)

inbox-modify_first :
    (u v : UserId) (id now : ℕ) (c : List Notification)
    → u ≢ v
    → inbox v (modify_first (is_the u id) (mark_read now) c) ≡ inbox v c
inbox-modify_first u v id now [] h = refl
inbox-modify_first u v id now (n ∷ c) h = ground (arith, inbox-modify_first u v id now c h)

inbox-reject_all :
    (u v : UserId) (c : List Notification) → u ≢ v → inbox v (reject (owned_by u) c) ≡ inbox v c
inbox-reject_all u v [] h = refl
inbox-reject_all u v (n ∷ c) h = ground (arith, inbox-reject_all u v c h)

inbox-reject_own : (u : UserId) (c : List Notification) → inbox u (reject (owned_by u) c) ≡ []
inbox-reject_own u [] = refl
inbox-reject_own u (n ∷ c) = ground (arith, inbox-reject_own u c)

unread-reject :
    (u v : UserId) (c : List Notification)
    → count (is_unread v) (reject (is_read_of u) c) ≡ count (is_unread v) c
unread-reject u v [] = refl
unread-reject u v (n ∷ c) = ground (arith, unread-reject u v c)

inbox-update_if :
    (u v : UserId) (id now : ℕ) (c : List Notification)
    → u ≢ v
    → inbox v (update_if (λ _. true) (mark_read now) (is_the u id) c (first (is_the u id) c)).1
      ≡ inbox v c
inbox-update_if u v id now c h = ground (arith, inbox-modify_first u v id now c h)

module _ (e : Env) where
  -- `markAllAsRead` answers what `getUnreadCount` would have answered before, the unread count is 0
  -- after it, and every other user's notifications are as they were.
  pub mark_all_as_read_lem :
      (u v : UserId) (w : World)
      → u ≢ v
      → ((mark_all_as_read e u w).0 ≡ (get_unread_count e u w).0)
        × ((get_unread_count e u (mark_all_as_read e u w).1).0 ≡ ok 0)
        × (inbox v (mark_all_as_read e u w).1.notifications ≡ inbox v w.notifications)
  unfolding mark_all_as_read get_unread_count
  mark_all_as_read_lem u v w other = (
    refl,
    ap ok (
        ap (e.notifications.count_documents (is_unread u))
          (e.notifications.update_many_lem (is_unread u) (mark_read w.now) w.notifications)
        ∙ e.notifications.count_documents_lem (is_unread u) _
        ∙ count-modify_all u w.now w.notifications),
    rw e.notifications.update_many_lem (inbox-modify_all u v w.now w.notifications other),
  )

  -- Marking one notification or all of them as read, and deleting one, those that are read or all,
  -- leave the notifications of every other user as they were.
  pub others_keep_theirs :
      (u v : UserId) (id : ℕ) (w : World)
      → u ≢ v
      → (inbox v (mark_as_read e u id w).1.notifications ≡ inbox v w.notifications)
        × (inbox v (mark_all_as_read e u w).1.notifications ≡ inbox v w.notifications)
        × (inbox v (delete_notification e u id w).1.notifications ≡ inbox v w.notifications)
        × (inbox v (delete_read_notifications e u w).1.notifications ≡ inbox v w.notifications)
        × (inbox v (delete_all_notifications e u w).1.notifications ≡ inbox v w.notifications)
  unfolding mark_as_read mark_all_as_read delete_notification delete_read_notifications
      delete_all_notifications
  others_keep_theirs u v id w other = (
    rw e.notifications.find_one_and_update_lem (inbox-update_if u v id w.now w.notifications other),
    rw e.notifications.update_many_lem (inbox-modify_all u v w.now w.notifications other),
    rw e.notifications.find_one_and_delete_lem (inbox-remove_first u v id w.notifications other),
    rw e.notifications.delete_many_lem
        (inbox-reject u v Notification.is_read w.notifications other),
    rw e.notifications.delete_many_lem (inbox-reject_all u v w.notifications other),
  )

  -- `deleteReadNotifications` changes no unread count, of the user or of another, and leaves the user
  -- no read notification; `deleteAllNotifications` leaves the user none, and answers how many there
  -- were.
  pub deletes_what_it_says :
      (u v : UserId) (w : World)
      → ((get_unread_count e v (delete_read_notifications e u w).1).0 ≡ (get_unread_count e v w).0)
        × (count (is_read_of u) (delete_read_notifications e u w).1.notifications ≡ 0)
        × (inbox u (delete_all_notifications e u w).1.notifications ≡ [])
        × ((delete_all_notifications e u w).0 ≡ ok (count (owned_by u) w.notifications))
  unfolding get_unread_count delete_read_notifications delete_all_notifications
  deletes_what_it_says u v w = (
    ap ok (
        e.notifications.count_documents_lem (is_unread v) _
        ∙ ap (count (is_unread v)) (e.notifications.delete_many_lem (is_read_of u) w.notifications)
        ∙ unread-reject u v w.notifications
        ∙ sym (e.notifications.count_documents_lem (is_unread v) w.notifications)),
    rw e.notifications.delete_many_lem (count-reject (is_read_of u) w.notifications),
    rw e.notifications.delete_many_lem (inbox-reject_own u w.notifications),
    ap ok (e.notifications.count_documents_lem (owned_by u) w.notifications),
  )
