-- ===== src/Changes/Webhook.antt =====
-- The payment webhook refines the specification of the auction collection.
use ubuy_backend.Base.{Option}
use ubuy_backend.Domain.{AuctionId, UserId}
use ubuy_backend.Platform.{Env}
use ubuy_backend.Changes.{here}
use ubuy_backend.Changes.Methods.{Respects, confirm_winner_payment_by_provider-Respects}
use ubuy_backend.Payments.Webhook.{WebhookStatus, Payload, handle_by_status, handle_webhook}
use ubuy_backend.Payments.Settling.{process_payment-auctions}

module _ (e : Env) where
  by_status :
      (s : WebhookStatus) (i : AuctionId) (o : Option UserId)
      → Respects e (handle_by_status e s i o)
  by_status WebhookStatus.failed i o w = here
  by_status WebhookStatus.success i o w =
      rw (process_payment-auctions e i o w) (confirm_winner_payment_by_provider-Respects e i o w)

  pub handle_webhook-Respects : (payload : Payload) → Respects e (handle_webhook e payload)
  unfolding handle_webhook
  handle_webhook-Respects payload w =
      by_status payload.status payload.auction_id payload.winner_user_id w
