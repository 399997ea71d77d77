-- ===== src/Tests/Services.antt =====
-- The theorems on notifications, wishlists and payments, each where its hypotheses hold.
use ubuy_backend.Base.{◌≡◌, refl, true, Option, some, [], ◌∷◌, arith}
use ubuy_backend.Domain.{key, KeyKind}
use ubuy_backend.Domain.Equality.{same_key}
use ubuy_backend.Platform.World.{is_ok, ok}
use ubuy_backend.Platform.Store.{lookup, patched}
use ubuy_backend.Notifications.{
  create_notification, store, mark_as_read, mark_all_as_read, delete_notification,
  delete_read_notifications, delete_all_notifications,
}
use ubuy_backend.Notifications.Dedupe.{create_notification-dedupe}
use ubuy_backend.Notifications.Inbox.{inbox, others_keep_theirs}
use ubuy_backend.Texts.{Text}
use ubuy_backend.Payments.LinkId.{
  is_object_id, extract_auction_id, link_id, extract_auction_id-link_id,
}
use ubuy_backend.Payments.Webhook.{WebhookStatus, Payload, handle_webhook, remains_unpaid}
use ubuy_backend.Payments.Settling.{IsPaidFor, handle_webhook_lem}
use ubuy_backend.Wishlist.{added, add_to_wishlist, ensure_valid_auction_id, add_unless_there}
use ubuy_backend.Wishlist.Membership.{entries, add_to_wishlist-once}
use ubuy_backend.Tests.Market.{env, opened, sold, notice, louder_notice, inbox_of_8, first_notice}

notice_created : (create_notification env notice opened).0 ≡ ok first_notice
unfolding create_notification store
notice_created = refl

notice_again :
    (create_notification env louder_notice
      (record (create_notification env notice opened).1 { now = 600 })).0
    ≡ ok first_notice
unfolding create_notification store same_key
notice_again = refl

create_notification-dedupe_example :
    (first_notice ≡ first_notice)
    × ((create_notification env louder_notice
          (record (create_notification env notice opened).1 { now = 600 })).1.notifications
        ≡ (create_notification env notice opened).1.notifications)
create_notification-dedupe_example =
    create_notification-dedupe env notice louder_notice (key KeyKind.out_bid 1 8 130) opened 600
      first_notice first_notice refl refl refl notice_created notice_again

others_keep_theirs_example :
    (inbox 9 (mark_as_read env 8 1000 inbox_of_8).1.notifications
      ≡ inbox 9 inbox_of_8.notifications)
    × (inbox 9 (mark_all_as_read env 8 inbox_of_8).1.notifications
        ≡ inbox 9 inbox_of_8.notifications)
    × (inbox 9 (delete_notification env 8 1000 inbox_of_8).1.notifications
        ≡ inbox 9 inbox_of_8.notifications)
    × (inbox 9 (delete_read_notifications env 8 inbox_of_8).1.notifications
        ≡ inbox 9 inbox_of_8.notifications)
    × (inbox 9 (delete_all_notifications env 8 inbox_of_8).1.notifications
        ≡ inbox 9 inbox_of_8.notifications)
others_keep_theirs_example = others_keep_theirs env 8 9 1000 inbox_of_8 (λ e. omega arith)

add_to_wishlist-once_example : entries 8 1 (add_to_wishlist env 8 1 opened).1 ≡ 1
unfolding add_to_wishlist ensure_valid_auction_id add_unless_there lookup
add_to_wishlist-once_example = add_to_wishlist-once env 8 1 opened added (omega arith) refl

abbrev object_id : Text
object_id =
    54 ∷ 49 ∷ 54 ∷ 50 ∷ 54 ∷ 51 ∷ 54 ∷ 52 ∷ 54 ∷ 53 ∷ 54 ∷ 54 ∷ 48 ∷ 48 ∷ 48 ∷ 48 ∷ 48 ∷ 48 ∷ 48
    ∷ 48 ∷ 48 ∷ 48 ∷ 97 ∷ 70 ∷ []

object_id_valid : is_object_id object_id ≡ true
unfolding is_object_id
object_id_valid = refl

extract_auction_id-link_id_example :
    extract_auction_id (link_id object_id (49 ∷ 55 ∷ [])) ≡ some object_id
extract_auction_id-link_id_example =
    extract_auction_id-link_id object_id (49 ∷ 55 ∷ []) object_id_valid

abbrev sent : Option Text
sent = some (115 ∷ [])

abbrev payment : Payload
payment = record { auction_id = 1; status = WebhookStatus.success; winner_user_id = some 9 }

handle_webhook_example :
    (payment.status ≡ WebhookStatus.failed
      → handle_webhook env payment sold ≡ (ok remains_unpaid, sold))
    × (payment.status ≡ WebhookStatus.success
        → is_ok (handle_webhook env payment sold).0 ≡ true
        → IsPaidFor env 1 (some 9) (handle_webhook env payment sold).1.auctions)
handle_webhook_example = handle_webhook_lem env payment sold

payment_answered : is_ok (handle_webhook env payment sold).0 ≡ true
unfolding handle_webhook lookup patched
payment_answered = refl

paid_by_webhook : IsPaidFor env 1 (some 9) (handle_webhook env payment sold).1.auctions
paid_by_webhook = (handle_webhook_lem env payment sold).1 refl payment_answered
