-- ===== src/Payments/Webhook.antt =====
-- modules/payments/payments.service.ts: `validateWebhookSecret`, `handleWebhook` and
-- `emitPaymentSuccessNotifications`. A missing setting or header is `none`, and a text is its list of
-- character codes.
use ubuy_backend.Base.{Option, none, some, [], ◌∷◌, ⊤, if◌then◌else◌}
use ubuy_backend.Domain.{
  AuctionId, UserId, Auction, NotificationType, KeyKind, key, Emit, SocketEvent,
}
use ubuy_backend.Platform.{Env}
use ubuy_backend.Platform.Calls.{find_auction}
use ubuy_backend.Platform.World.{
  Action, Result, ok, err, auction_not_found, unauthorized, pure, or_throw, skip, emit, ◌>>=◌, ◌>>◌,
}
use ubuy_backend.Auctions.Push.{push}
use ubuy_backend.Auctions.Payment.{
  Confirmation, already_confirmed, confirmed, confirm_winner_payment_by_provider,
}
use ubuy_backend.Texts.{Text, same_text}

-- With a secret configured: `!secretFromHeader || secretFromHeader !== configuredSecret`. The empty
-- header, which is falsy, differs from a secret that is not empty.
abbrev pub check_header : Text → Option Text → Result ⊤
check_header secret none = err unauthorized
check_header secret (some header) = if same_text header secret then ok tt else err unauthorized

-- The setting and the header; an empty setting is falsy, as is a missing one.
unfoldable pub validate_webhook_secret : Option Text → Option Text → Result ⊤
unfolding same_text
validate_webhook_secret none header = ok tt
validate_webhook_secret (some []) header = ok tt
validate_webhook_secret (some (x ∷ xs)) header = check_header (x ∷ xs) header

pub data WebhookStatus : Type 0 where
  success failed : WebhookStatus

-- `PaymentWebhookDto`
pub record Payload : Type 0 where
  pub auction_id : AuctionId
  pub status : WebhookStatus
  pub winner_user_id : Option UserId

pub data WebhookReply : Type 0 where
  remains_unpaid : WebhookReply
  processed : Auction → WebhookReply

abbrev pub auction_of : Confirmation → Auction
auction_of (already_confirmed auction) = auction
auction_of (confirmed auction) = auction

module _ (e : Env) where
  -- `if (auction.winner) { … }`
  unfoldable pub tell_payer : AuctionId → Option UserId → Action ⊤
  unfolding push
  tell_payer i none = skip
  tell_payer i (some u) = push e (record {
    user_id = u;
    type = NotificationType.payment_success;
    title = "Payment successful";
    dedupe_key = some (key KeyKind.payment_success i u 0);
  })

  unfoldable pub emit_payment_success_notifications : AuctionId → Action Auction
  unfolding tell_payer push
  emit_payment_success_notifications i = do
    auction ← or_throw (← find_auction e i) auction_not_found
    tell_payer auction.id auction.winner
    push e (record {
      user_id = auction.created_by;
      type = NotificationType.system;
      title = "Winner payment received";
      dedupe_key = some (key KeyKind.creator_payment_received auction.id auction.created_by 0);
    })
    emit (
        Emit.to_auction auction.id
          (SocketEvent.payment_confirmed auction.winner auction.payment_status))
    pure auction

  -- A payment that the provider calls successful.
  unfoldable pub process_payment : AuctionId → Option UserId → Action WebhookReply
  unfolding confirm_winner_payment_by_provider emit_payment_success_notifications
  process_payment i expected = do
    confirmation ← confirm_winner_payment_by_provider e i expected
    emit_payment_success_notifications i
    pure (processed (auction_of confirmation))

  abbrev pub handle_by_status : WebhookStatus → AuctionId → Option UserId → Action WebhookReply
  handle_by_status failed i expected = pure remains_unpaid
  handle_by_status success i expected = process_payment i expected

  unfoldable pub handle_webhook : Payload → Action WebhookReply
  unfolding process_payment
  handle_webhook payload = handle_by_status payload.status payload.auction_id payload.winner_user_id
