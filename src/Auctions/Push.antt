-- ===== src/Auctions/Push.antt =====
-- `createNotification` followed by the `notification:new` event to the same user, as the services
-- do it throughout.
use ubuy_backend.Base.{⊤}
use ubuy_backend.Domain.{Emit, SocketEvent}
use ubuy_backend.Platform.{Env}
use ubuy_backend.Platform.World.{Action, ◌>>=◌, emit}
use ubuy_backend.Notifications.{Input, create_notification}

unfoldable pub push : Env → Input → Action ⊤
unfolding create_notification
push e input = do
  notification ← create_notification e input
  emit (Emit.to_user input.user_id (SocketEvent.notification_new notification))
