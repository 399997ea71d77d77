-- ===== src/Payments/Settling.antt =====
-- What the payment webhook lets through and what it settles.
use ubuy_backend.Base.{
  ℕ, ◌≡◌, refl, ◌⊎◌, inl, inr, ◌↔◌, true, false, Option, none, some, is_some, List, ◌∷◌, arith, ◌∙◌,
  Option-cases,
}
use ubuy_backend.Domain.{AuctionId, UserId, Auction, Status, PaymentStatus}
use ubuy_backend.Platform.{Env}
use ubuy_backend.Platform.World.{World, Action, ok, is_ok, bind-is_ok, pure, ◌>>◌}
use ubuy_backend.Platform.Store.{lookup, patched, lookup-patched, set_paid, apply}
use ubuy_backend.Auctions.Payment.{Confirmation, confirm_winner_payment_by_provider}
use ubuy_backend.Auctions.Frames.{Spares, bind-Spares_last}
use ubuy_backend.Texts.{Text, same_text_iff}
use ubuy_backend.Payments.Webhook.{
  auction_of, remains_unpaid, WebhookStatus, validate_webhook_secret, Payload, WebhookReply,
  processed, tell_payer, emit_payment_success_notifications, process_payment, handle_webhook,
}

-- With a secret configured that is not empty, a webhook passes exactly if its header is that secret.
pub validate_webhook_secret_iff :
    (x : ℕ) (secret : Text) (header : Option Text)
    → (validate_webhook_secret (some (x ∷ secret)) header ≡ ok tt) ↔ (header ≡ some (x ∷ secret))
unfolding validate_webhook_secret
validate_webhook_secret_iff x secret none = (λ h. cc, λ h. cc)
validate_webhook_secret_iff x secret (some header) = (
  λ h. ground (arith, same_text_iff header (x ∷ secret)),
  λ h. ground (arith, same_text_iff header (x ∷ secret)),
)

module _ (e : Env) where
  tell_payer-Spares : (i : AuctionId) (o : Option UserId) → Spares (tell_payer e i o)
  unfolding tell_payer
  tell_payer-Spares i none w = refl
  tell_payer-Spares i (some u) w = ground arith

  pub emit_payment_success_notifications-Spares :
      (i : AuctionId) → Spares (emit_payment_success_notifications e i)
  unfolding emit_payment_success_notifications tell_payer
  emit_payment_success_notifications-Spares i w = ground arith

  -- The document after a confirmed payment.
  pub record IsPaidFor (i : AuctionId) (expected : Option UserId) (c : List Auction) : Type 0 where
    pub auction : Auction
    pub stored : lookup e i c ≡ some auction
    pub paid : auction.payment_status ≡ PaymentStatus.paid
    pub ended : auction.status ≡ Status.ended
    pub sold : is_some auction.winner ≡ true
    pub as_expected : is_some expected ≡ true → auction.winner ≡ expected

  confirmed-cases :
      (i : AuctionId) (o : Option UserId) (a : Auction) (w : World)
      → lookup e i w.auctions ≡ some a
      → is_ok (confirm_winner_payment_by_provider e i o w).0 ≡ true
      → (a.status ≡ Status.ended)
        × (is_some a.winner ≡ true)
        × (is_some o ≡ true → a.winner ≡ o)
        × (((a.payment_status ≡ PaymentStatus.paid)
              × ((confirm_winner_payment_by_provider e i o w).1.auctions ≡ w.auctions))
            ⊎ ((confirm_winner_payment_by_provider e i o w).1.auctions
                ≡ patched e i set_paid w.auctions))
  unfolding confirm_winner_payment_by_provider
  confirmed-cases i o a w found okay = ground arith

  confirmed-missing :
      (i : AuctionId) (o : Option UserId) (w : World)
      → lookup e i w.auctions ≡ none
      → is_ok (confirm_winner_payment_by_provider e i o w).0 ≡ false
  unfolding confirm_winner_payment_by_provider
  confirmed-missing i o w missing = ground arith

  pub confirmed-IsPaidFor :
      (i : AuctionId) (o : Option UserId) (w : World)
      → is_ok (confirm_winner_payment_by_provider e i o w).0 ≡ true
      → IsPaidFor i o (confirm_winner_payment_by_provider e i o w).1.auctions
  confirmed-IsPaidFor i o w okay = elim (Option-cases (lookup e i w.auctions)) [
    | inl missing ↦ cc (confirmed-missing i o w missing)
    | inr (a, found) ↦
        (let (ended, sold, as_expected, cases) = confirmed-cases i o a w found okay in
          elim cases [
            | inl (paid, same) ↦ rw same (record {
              auction = a;
              stored = found;
              paid = paid;
              ended = ended;
              sold = sold;
              as_expected = as_expected;
            })
            | inr eq ↦ rw eq (record {
              auction = apply set_paid a;
              stored = ground (arith, lookup-patched e i w.auctions i set_paid);
              paid = refl;
              ended = ended;
              sold = sold;
              as_expected = as_expected;
            })
          ])
  ]

  -- What follows the confirmation.
  abbrev and_notify : AuctionId → Confirmation → Action WebhookReply
  and_notify i c = emit_payment_success_notifications e i >> pure (processed (auction_of c))

  and_notify-Spares : (i : AuctionId) (c : Confirmation) → Spares (and_notify i c)
  and_notify-Spares i c w =
      bind-Spares_last (emit_payment_success_notifications e i)
        (λ _. pure (processed (auction_of c))) w (λ _ _. refl)
      ∙ emit_payment_success_notifications-Spares i w

  -- What a processed payment leaves of the auctions is what the confirmation leaves.
  pub process_payment-auctions :
      (i : AuctionId) (o : Option UserId) (w : World)
      → (process_payment e i o w).1.auctions
        ≡ (confirm_winner_payment_by_provider e i o w).1.auctions
  unfolding process_payment
  process_payment-auctions i o w =
      bind-Spares_last (confirm_winner_payment_by_provider e i o) (and_notify i) w
        (and_notify-Spares i)

  pub process_payment-IsPaidFor :
      (i : AuctionId) (o : Option UserId) (w : World)
      → is_ok (process_payment e i o w).0 ≡ true
      → IsPaidFor i o (process_payment e i o w).1.auctions
  unfolding process_payment
  process_payment-IsPaidFor i o w okay = rw (process_payment-auctions i o w) (
      confirmed-IsPaidFor i o w
        (bind-is_ok (confirm_winner_payment_by_provider e i o) (and_notify i) w okay))

  -- A webhook about a failed payment changes nothing. If a webhook about a successful one is answered,
  -- the auction it names is stored as ended, sold and paid, and sold to the user that the webhook
  -- names, if it names one.
  pub handle_webhook_lem :
      (payload : Payload) (w : World)
      → (payload.status ≡ WebhookStatus.failed
          → handle_webhook e payload w ≡ (ok remains_unpaid, w))
        × (payload.status ≡ WebhookStatus.success
            → is_ok (handle_webhook e payload w).0 ≡ true
            → IsPaidFor payload.auction_id payload.winner_user_id
                (handle_webhook e payload w).1.auctions)
  unfolding handle_webhook
  handle_webhook_lem payload w = (
    λ h. rw h,
    λ h okay.
        rw h (process_payment-IsPaidFor payload.auction_id payload.winner_user_id w (rw h at okay)),
  )
