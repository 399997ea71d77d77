-- ===== src/Payments/Cashfree.antt =====
-- modules/payments/payments.service.ts: `verifyCashfreePaymentLink`, `createCashfreePaymentLink` and
-- `notifyPaymentForAuction`. What Cashfree answers, the settings and the printing of ids are the
-- parameter `Cashfree`.
use ubuy_backend.Base.{
  ℕ, Bool, true, not, ◌&&◌, ◌||◌, Option, none, some, [], ◌∷◌, ◌++◌, ◌==◌, is_none, is_some,
  get_or_else, if◌then◌else◌,
}
use ubuy_backend.Texts.{Text, codes, same_text, present, or_text}
use ubuy_backend.Domain.{AuctionId, UserId, Auction, User}
use ubuy_backend.Domain.Equality.{is_ended, is_paid}
use ubuy_backend.Platform.{Env}
use ubuy_backend.Platform.Calls.{find_auction}
use ubuy_backend.Platform.World.{
  World, Action, auction_not_found, auction_not_ended, no_winner, not_current_winner, already_paid,
  user_not_found, link_id_required, cashfree_not_configured, cashfree_failed,
  payment_not_successful, invalid_link_id, email_mismatch, link_id_too_long, gets, pure, or_throw,
  throw_if, ◌>>=◌, ◌>>◌,
}
use ubuy_backend.Users.{find_by_id}
use ubuy_backend.Auth.Codes.{decimal}
use ubuy_backend.Auctions.Payment.{confirm_winner_payment_by_provider}
use ubuy_backend.Payments.LinkId.{extract_auction_id, link_id, is_too_long}
use ubuy_backend.Payments.Webhook.{auction_of, emit_payment_success_notifications}

-- `CashfreeLinkResponse`, of a request that succeeded.
pub record LinkResponse : Type 0 where
  pub link_id : Text
  pub is_paid : Bool
  pub customer_email : Option Text

-- `CashfreeCreateLinkPayload`, less its constants and its purpose.
pub record LinkRequest : Type 0 where
  pub link_id : Text
  pub link_amount : ℕ
  pub customer_name : Text
  pub customer_phone : Text
  pub customer_email : Text
  pub send_sms : Bool
  pub send_email : Bool
  pub auction_id : AuctionId
  pub winner_user_id : UserId
  pub notify_url : Option Text
  pub return_url : Option Text

pub record Cashfree : Type 0 where
  pub is_configured : Bool
  -- `GET` and `POST /pg/links`, `none` where the response is not ok
  pub fetch_link : World → Text → Option LinkResponse
  pub create_link : World → LinkRequest → Option LinkResponse
  pub frontend_base_url : Option Text
  pub payment_return_url : Option Text
  pub payment_notify_url : Option Text
  -- `String(auction._id)`, and the id that a text of 24 hexadecimal digits denotes
  pub print_id : AuctionId → Text
  pub read_id : Text → AuctionId
  pub lower : Text → Text
  pub trim : Text → Text

-- `CashfreeCreateLinkDto`
pub record CreateLink : Type 0 where
  pub auction_id : AuctionId
  pub customer_phone : Text
  pub send_sms : Option Bool
  pub send_email : Option Bool
  pub return_url : Option Text
  pub notify_url : Option Text

-- `a || b`, where the empty text is falsy
abbrev pub or_given : Option Text → Option Text → Option Text
or_given a b = if is_some (present a) then a else b

-- `.replace(/\/+$/, '')`
unfoldable pub strip_slashes : Text → Text
strip_slashes [] = []
strip_slashes (x ∷ xs) =
    let rest = strip_slashes xs in
    if x == b'/' && is_none (present (some rest)) then [] else x ∷ rest

abbrev pub status_url : Text → Option Text → Option Text
status_url id none = none
status_url id (some url) =
    if is_none (present (some (strip_slashes url)))
    then none
    else some (strip_slashes url ++ codes "/payments/status?auctionId=" ++ id)

-- `winnerUser.name ?? winnerUser.username ?? winnerUser.email`
abbrev pub customer_name : User → Text
customer_name u = get_or_else u.name (get_or_else u.username u.email)

-- `!cashfreeEmail || winnerUser.email.toLowerCase() !== cashfreeEmail.toLowerCase()`
abbrev pub emails_differ : (Text → Text) → Text → Option Text → Bool
emails_differ lower email none = true
emails_differ lower email (some other) = not (same_text (lower email) (lower other))

abbrev pub winner_if_ended : Auction → Option UserId
winner_if_ended a = if is_ended a.status then a.winner else none

abbrev pub request_for : Cashfree → CreateLink → Auction → UserId → User → Text → LinkRequest
request_for c payload a winner user id = record {
  link_id = id;
  link_amount = a.current_price;
  customer_name = customer_name user;
  customer_phone = payload.customer_phone;
  customer_email = user.email;
  send_sms = get_or_else payload.send_sms true;
  send_email = get_or_else payload.send_email true;
  auction_id = a.id;
  winner_user_id = winner;
  notify_url = or_given payload.notify_url c.payment_notify_url;
  return_url =
      or_given payload.return_url
        (or_given c.payment_return_url (status_url (c.print_id a.id) c.frontend_base_url));
}

module _ (e : Env) (c : Cashfree) where
  -- The confirmation below the test of the email.
  unfoldable pub settle_link : AuctionId → UserId → Action Auction
  unfolding confirm_winner_payment_by_provider emit_payment_success_notifications
  settle_link i winner = do
    confirmation ← confirm_winner_payment_by_provider e i (some winner)
    emit_payment_success_notifications e i
    pure (auction_of confirmation)

  -- The auction id of a link that Cashfree reports as paid, and the report.
  unfoldable pub fetch_paid_link : Text → Action (AuctionId × LinkResponse)
  unfolding extract_auction_id
  fetch_paid_link link = do
    throw_if (is_none (present (some link))) link_id_required
    throw_if (not c.is_configured) cashfree_not_configured
    data_ ← or_throw (← gets λ w. c.fetch_link w link) cashfree_failed
    throw_if (not data_.is_paid) payment_not_successful
    id ← or_throw (extract_auction_id link) invalid_link_id
    pure (c.read_id id, data_)

  -- The winner of the ended auction, whose address has to be the customer's.
  unfoldable pub check_winner : AuctionId → LinkResponse → Action UserId
  unfolding find_by_id
  check_winner i data_ = do
    auction ← or_throw (← find_auction e i) auction_not_found
    winner ← or_throw (winner_if_ended auction) auction_not_found
    user ← or_throw (← find_by_id e winner) user_not_found
    throw_if (emails_differ c.lower user.email (present data_.customer_email)) email_mismatch
    pure winner

  unfoldable pub check_link : Text → Action (AuctionId × UserId)
  unfolding fetch_paid_link check_winner
  check_link link = do
    found ← fetch_paid_link link
    winner ← check_winner found.0 found.1
    pure (found.0, winner)

  unfoldable pub verify_cashfree_payment_link : Text → Action Auction
  unfolding check_link settle_link
  verify_cashfree_payment_link link = do found ← check_link link; settle_link found.0 found.1

  unfoldable pub create_cashfree_payment_link : UserId → CreateLink → Action LinkResponse
  unfolding find_by_id link_id is_too_long decimal
  create_cashfree_payment_link actor payload = do
    throw_if (not c.is_configured) cashfree_not_configured
    auction ← or_throw (← find_auction e payload.auction_id) auction_not_found
    throw_if (not (is_ended auction.status)) auction_not_ended
    winner ← or_throw auction.winner no_winner
    throw_if (not (auction.created_by == actor || winner == actor)) not_current_winner
    throw_if (is_paid auction.payment_status) already_paid
    user ← or_throw (← find_by_id e winner) user_not_found
    now ← gets World.now
    throw_if (is_too_long (link_id (c.print_id auction.id) (decimal now))) link_id_too_long
    request ←
        pure (
          request_for c payload auction winner user (link_id (c.print_id auction.id) (decimal now)))
    or_throw (← gets λ w. c.create_link w request) cashfree_failed

  -- `customerPhone?.trim() || '9999999999'`
  abbrev pub normalized_phone : Option Text → Text
  normalized_phone none = codes "9999999999"
  normalized_phone (some phone) = or_text (c.trim phone) (codes "9999999999")

  unfoldable pub notify_payment_for_auction : UserId → AuctionId → Option Text → Action LinkResponse
  unfolding create_cashfree_payment_link
  notify_payment_for_auction actor i phone = create_cashfree_payment_link actor (record {
    auction_id = i;
    customer_phone = normalized_phone phone;
    send_sms = none;
    send_email = none;
    return_url = none;
    notify_url = none;
  })
