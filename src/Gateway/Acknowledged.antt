-- ===== src/Gateway/Acknowledged.antt =====
-- modules/bids/bids.gateway.ts, `handlePlaceBid`: whose bid it places and how it answers.
use ubuy_backend.Base.{
  ◌≡◌, refl, inl, inr, Bool, true, false, Option, none, some, [], ◌∷◌, arith, Option-cases, ℕ,
}
use ubuy_backend.Texts.{Text}
use ubuy_backend.Domain.{AuctionId, Auction}
use ubuy_backend.Platform.{Env}
use ubuy_backend.Platform.World.{
  World, Result, Error, ok, err, unauthorized, auction_id_required, amount_not_positive,
}
use ubuy_backend.Auth.Login.{Claims}
use ubuy_backend.Bids.{place_bid}
use ubuy_backend.Gateway.{
  Sockets, JsNumber, not_finite, not_positive, positive, Client, Amount, BidOutcome, nothing,
  returned, thrown, token_of, hydrate, normalized_amount, bid_as, bid_of, respond, handle_place_bid,
}

-- The one response to a bid: acknowledged where the client asked for it, else returned or thrown.
pub record IsAnswer (ack : Bool) (r : Result Auction) (o : BidOutcome) : Type 0 where
  pub acknowledged : ack ≡ true → (o.acks ≡ r ∷ []) × (o.reply ≡ nothing)
  pub not_acknowledged : ack ≡ false → o.acks ≡ []
  pub returns : (a : Auction) → ack ≡ false → r ≡ ok a → o.reply ≡ returned a
  pub throws : (x : Error) → ack ≡ false → r ≡ err x → o.reply ≡ thrown x

-- The user of a socket: the one that it was connected with, or else the one of a valid token.
pub data IsUserOf (s : Sockets) (now : ℕ) (c : Client) (u : Claims) : Type 0 where
  connected : c.user ≡ some u → IsUserOf s now c u
  authenticated :
      (t : Text)
      → c.user ≡ none
      → token_of c ≡ some t
      → s.verify now t ≡ some u
      → IsUserOf s now c u

-- What a bid on a socket does: nothing, or `placeBid` for the user of the socket.
pub data IsBid (e : Env) (s : Sockets) (c : Client) (o : Option AuctionId) (x : Amount) (w : World)
    (r : Result Auction) (w' : World) : Type 0 where
  refused : (y : Error) → r ≡ err y → w' ≡ w → IsBid e s c o x w r w'
  placed :
      (u : Claims) (i : AuctionId) (n : ℕ)
      → IsUserOf s w.now c u
      → o ≡ some i
      → normalized_amount s x ≡ positive n
      → place_bid e u.sub i n w ≡ (r, w')
      → IsBid e s c o x w r w'

respond-IsAnswer :
    (e : Env) (s : Sockets) (ack : Bool) (r : Result Auction) (c : Client)
    → IsAnswer ack r (respond e s ack r c)
respond-IsAnswer e s true r c = record {
  acknowledged = λ h. (refl, refl);
  not_acknowledged = λ h. absurd (ground arith);
  returns = λ a h k. absurd (ground arith);
  throws = λ x h k. absurd (ground arith);
}
respond-IsAnswer e s false r c = record {
  acknowledged = λ h. absurd (ground arith);
  not_acknowledged = λ h. refl;
  returns = λ a h k. rw k refl;
  throws = λ x h k. rw k refl;
}

module _ (s : Sockets) where
  pub hydrate-IsUserOf :
      (now : ℕ) (c : Client) (u : Claims) → (hydrate s now c).user ≡ some u → IsUserOf s now c u
  unfolding hydrate
  hydrate-IsUserOf now c u h = elim (Option-cases c.user) [
    | inr (v, old) ↦ connected (ground arith)
    | inl none_ ↦ elim (Option-cases (token_of c)) [
      | inl no_token ↦ absurd (ground arith)
      | inr (t, token) ↦ authenticated t none_ token (verified t none_ token)
    ]
  ]
    where
      verified : (t : Text) → c.user ≡ none → token_of c ≡ some t → s.verify now t ≡ some u
      verified t none_ token = elim (Option-cases (s.verify now t)) [
        | inl bad ↦ absurd (ground arith)
        | inr (v, good) ↦ ground arith
      ]

module _ (e : Env) (s : Sockets) (c : Client) (x : Amount) (w : World) where
  bid_as-IsBid :
      (user : Option Claims) (o : Option AuctionId)
      → ((u : Claims) → user ≡ some u → IsUserOf s w.now c u)
      → IsBid e s c o x w (bid_as e s user o x w).0 (bid_as e s user o x w).1
  bid_as-IsBid none o h = refused unauthorized refl refl
  bid_as-IsBid (some u) none h = refused auction_id_required refl refl
  bid_as-IsBid (some u) (some i) h = by_amount (normalized_amount s x) refl
    where
      by_amount :
          (n : JsNumber)
          → normalized_amount s x ≡ n
          → IsBid e s c (some i) x w (bid_of e s u.sub i n w).0 (bid_of e s u.sub i n w).1
      by_amount not_finite k = refused amount_not_positive refl refl
      by_amount not_positive k = refused amount_not_positive refl refl
      by_amount (positive n) k = placed u i n (h u refl) refl k refl

  -- A bid on a socket changes nothing and is answered with an error, or it is placed as `placeBid`
  -- places it, for the user that the socket was connected with or that its valid token names, with the
  -- answer of `placeBid`. There is exactly one response: it is acknowledged once where the client asked
  -- for that, and is otherwise returned, or thrown if it is an error.
  pub handle_place_bid_lem :
      (o : Option AuctionId) (ack : Bool)
      → (r : Result Auction) × IsAnswer ack r (handle_place_bid e s c o x ack w).0
        × IsBid e s c o x w r (handle_place_bid e s c o x ack w).1
  unfolding handle_place_bid
  handle_place_bid_lem o ack =
      let user = (hydrate s w.now c).user in
      (
        (bid_as e s user o x w).0,
        respond-IsAnswer e s ack (bid_as e s user o x w).0 (hydrate s w.now c),
        bid_as-IsBid user o (hydrate-IsUserOf s w.now c),
      )
