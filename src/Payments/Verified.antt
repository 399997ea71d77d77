-- ===== src/Payments/Verified.antt =====
-- modules/payments/payments.service.ts, `verifyCashfreePaymentLink`: what an answered check has shown.
use ubuy_backend.Base.{
  ◌≡◌, refl, ap, subst, ◌∙◌, Bool, true, false, not, Option, none, some, arith, Option-cases, inl,
  inr, is_none,
}
use ubuy_backend.Texts.{Text, present}
use ubuy_backend.Domain.{AuctionId, UserId, Auction, User}
use ubuy_backend.Platform.{Env}
use ubuy_backend.Platform.World.{
  throw_if, or_throw, gets, link_id_required, cashfree_not_configured, cashfree_failed,
  payment_not_successful, invalid_link_id, World, Action, Result, ok, err, is_ok, bind-is_ok, pure,
  ◌>>=◌, ◌>>◌,
}
use ubuy_backend.Platform.Store.{lookup}
use ubuy_backend.Users.{has_user_id, find_by_id}
use ubuy_backend.Payments.LinkId.{extract_auction_id}
use ubuy_backend.Payments.Webhook.{emit_payment_success_notifications, auction_of}
use ubuy_backend.Payments.Settling.{IsPaidFor, confirmed-IsPaidFor, process_payment-auctions}
use ubuy_backend.Auctions.Payment.{confirm_winner_payment_by_provider}
use ubuy_backend.Payments.Cashfree.{
  Cashfree, LinkResponse, emails_differ, winner_if_ended, fetch_paid_link, check_winner, check_link,
  settle_link, verify_cashfree_payment_link,
}
use ubuy_backend.Changes.Money.{settle_link-same, check_link-same}

module _ (e : Env) (c : Cashfree) where
  -- A link that Cashfree reports as paid, and the auction id in it.
  pub record IsPaidLink (link : Text) (w : World) (i : AuctionId) (response : LinkResponse)
      : Type 0 where
    pub id : Text
    pub fetched : c.fetch_link w link ≡ some response
    pub is_paid : response.is_paid ≡ true
    pub named : extract_auction_id link ≡ some id
    pub read : i ≡ c.read_id id

  -- An ended auction whose winner has the address of the customer.
  pub record IsPayer (w : World) (i : AuctionId) (response : LinkResponse) (winner : UserId)
      : Type 0 where
    pub auction : Auction
    pub user : User
    pub stored : lookup e i w.auctions ≡ some auction
    pub sold : winner_if_ended auction ≡ some winner
    pub found : e.users.find_one (has_user_id winner) w.users ≡ some user
    pub same_email : emails_differ c.lower user.email (present response.customer_email) ≡ false

  -- `fetch_paid_link`, given what it reads.
  abbrev paid_chain :
      Bool → Bool → (World → Option LinkResponse) → Option Text → Action (AuctionId × LinkResponse)
  paid_chain no_link no_settings answer id = do
    throw_if no_link link_id_required
    throw_if no_settings cashfree_not_configured
    data_ ← or_throw (← gets answer) cashfree_failed
    throw_if (not data_.is_paid) payment_not_successful
    i ← or_throw id invalid_link_id
    pure (c.read_id i, data_)

  paid_chain-cases :
      (no_link no_settings : Bool) (answer : World → Option LinkResponse) (id : Option Text)
      (w : World) (i : AuctionId) (r : LinkResponse)
      → (paid_chain no_link no_settings answer id w).0 ≡ ok (i, r)
      → (answer w ≡ some r) × (r.is_paid ≡ true) × ((t : Text) × (id ≡ some t) × (i ≡ c.read_id t))
  paid_chain-cases true no_settings answer id w i r h = absurd (cc)
  paid_chain-cases false true answer id w i r h = absurd (cc)
  paid_chain-cases false false answer id w i r h = by_answer (answer w) id h
    where
      by_answer :
          (o : Option LinkResponse) (id : Option Text)
          → (paid_chain false false (λ w. o) id w).0 ≡ ok (i, r)
          → (o ≡ some r) × (r.is_paid ≡ true) × ((t : Text) × (id ≡ some t) × (i ≡ c.read_id t))
      by_answer none id k = absurd (cc)
      by_answer (some x) none k = absurd (ground arith)
      by_answer (some x) (some t) k = (ground arith, ground arith, (t, refl, ground arith))

  fetch_paid_link-IsPaidLink :
      (link : Text) (w : World) (i : AuctionId) (r : LinkResponse)
      → (fetch_paid_link e c link w).0 ≡ ok (i, r)
      → IsPaidLink link w i r
  unfolding fetch_paid_link
  fetch_paid_link-IsPaidLink link w i r h =
      let (fetched, paid, (id, named, read)) =
        paid_chain-cases (is_none (present (some link))) (not c.is_configured)
          (λ w. c.fetch_link w link) (extract_auction_id link) w i r h in
      record { id = id; fetched = fetched; is_paid = paid; named = named; read = read }

  check_winner-IsPayer :
      (w : World) (i : AuctionId) (r : LinkResponse) (u : UserId)
      → (check_winner e c i r w).0 ≡ ok u
      → IsPayer w i r u
  unfolding check_winner find_by_id
  check_winner-IsPayer w i r u h = elim (Option-cases (lookup e i w.auctions)) [
    | inl none_ ↦ absurd (ground arith)
    | inr (a, stored) ↦ elim (Option-cases (winner_if_ended a)) [
      | inl none_ ↦ absurd (ground arith)
      | inr (v, sold) ↦ elim (Option-cases (e.users.find_one (has_user_id v) w.users)) [
        | inl none_ ↦ absurd (ground arith)
        | inr (user, found) ↦ record {
          auction = a;
          user = user;
          stored = stored;
          sold = ground arith;
          found = ground arith;
          same_email = ground arith;
        }
      ]
    ]
  ]

  -- What a check that answers has established.
  abbrev IsChecked : Text → World → AuctionId × UserId → Type 0
  IsChecked link w found =
      (response : LinkResponse) × IsPaidLink link w found.0 response
      × IsPayer w found.0 response found.1

  by_winner :
      (link : Text) (w : World) (i : AuctionId) (response : LinkResponse)
      (found : AuctionId × UserId) (r : Result UserId × World)
      → IsPaidLink link w i response
      → (check_winner e c i response w).0 ≡ r.0
      → (◌>>=◌ {A = UserId} {B = AuctionId × UserId} (λ _. r) (λ u. pure (i, u)) w).0 ≡ ok found
      → IsChecked link w found
  by_winner link w i response found (err x, w') paid h k = absurd (cc)
  by_winner link w i response found (ok u, w') paid h k =
      subst (IsChecked link w) (ok_inj k) (response, paid, check_winner-IsPayer w i response u h)
    where
      ok_inj : ok (i, u) ≡ ok found → (i, u) ≡ found
      ok_inj e = cc

  check_link-IsChecked :
      (link : Text) (w : World) (found : AuctionId × UserId)
      → (check_link e c link w).0 ≡ ok found
      → IsChecked link w found
  unfolding check_link
  check_link-IsChecked link w found h =
      by_link (fetch_paid_link e c link w) refl (fetch_paid_link-same link w) h
    where
      fetch_paid_link-same : (link : Text) (w : World) → (fetch_paid_link e c link w).1 ≡ w
      fetch_paid_link-same link w = ground arith

      by_link :
          (r : Result (AuctionId × LinkResponse) × World)
          → fetch_paid_link e c link w ≡ r
          → r.1 ≡ w
          → (◌>>=◌ {A = AuctionId × LinkResponse} {B = AuctionId × UserId}
              (λ _. r)
              (λ x. check_winner e c x.0 x.1 >>= λ u. pure (x.0, u))
              w).0
            ≡ ok found
          → IsChecked link w found
      by_link (err x, w') h same k = absurd (cc)
      by_link (ok (i, response), w') h same k =
          by_winner link w i response found (check_winner e c i response w)
            (fetch_paid_link-IsPaidLink link w i response
              (ap (λ (r : Result (AuctionId × LinkResponse) × World). r.0) h))
            refl
            (subst (λ v. ((check_winner e c i response >>= λ u. pure (i, u)) v).0 ≡ ok found) same
              k)

  -- The confirmation has been answered.
  settle_link-confirmed :
      (i : AuctionId) (u : UserId) (w : World)
      → is_ok (settle_link e c i u w).0 ≡ true
      → IsPaidFor e i (some u) (settle_link e c i u w).1.auctions
  unfolding settle_link
  settle_link-confirmed i u w okay =
      rw (ap World.auctions (settle_link-same e c i u w) ∙ process_payment-auctions e i (some u) w)
        (confirmed-IsPaidFor e i (some u) w (
          bind-is_ok (confirm_winner_payment_by_provider e i (some u))
            (λ a. emit_payment_success_notifications e i >> pure (auction_of a)) w okay))

  -- If `verifyCashfreePaymentLink` answers, Cashfree reports the link as paid by a customer with the
  -- address of the winner of the ended auction that the link names, and that auction is stored as
  -- ended, paid, and sold to that winner.
  pub verify_cashfree_payment_link_lem :
      (link : Text) (w : World)
      → is_ok (verify_cashfree_payment_link e c link w).0 ≡ true
      → (i : AuctionId) × (u : UserId) × (response : LinkResponse) × IsPaidLink link w i response
        × IsPayer w i response u
        × IsPaidFor e i (some u) (verify_cashfree_payment_link e c link w).1.auctions
  unfolding verify_cashfree_payment_link
  verify_cashfree_payment_link_lem link w okay =
      by_check (check_link e c link w) refl (check_link-same e c link w) okay
    where
      by_check :
          (r : Result (AuctionId × UserId) × World)
          → check_link e c link w ≡ r
          → r.1 ≡ w
          → is_ok
              (◌>>=◌ {A = AuctionId × UserId} {B = Auction}
                (λ _. r)
                (λ found. settle_link e c found.0 found.1)
                w).0
            ≡ true
          → (i : AuctionId) × (u : UserId) × (response : LinkResponse) × IsPaidLink link w i
              response
            × IsPayer w i response u
            × IsPaidFor e i
                (some u)
                (◌>>=◌ {A = AuctionId × UserId} {B = Auction}
                  (λ _. r)
                  (λ found. settle_link e c found.0 found.1)
                  w).1.auctions
      by_check (err x, w') h same k = absurd (cc)
      by_check (ok (i, u), w') h same k =
          let (response, paid, payer) =
            check_link-IsChecked link w (i, u)
              (ap (λ (r : Result (AuctionId × UserId) × World). r.0) h) in
          (i, u, response, paid, payer, settle_link-confirmed i u w' k)
