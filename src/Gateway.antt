-- ===== src/Gateway.antt =====
-- modules/bids/bids.gateway.ts and common/guards/ws-jwt.guard.ts: the sockets on which users join the
-- rooms of auctions and place bids. Logging is left out.
pub mod Acknowledged
pub mod Rooms
use ubuy_backend.Base.{
  ℕ, Bool, true, false, ◌&&◌, not, ◌==◌, Option, none, some, is_some, List, [], ◌∷◌, ◌++◌, first,
  if◌then◌else◌, ⊤,
}
use ubuy_backend.Texts.{Text, codes, same_text, present, split, second}
use ubuy_backend.Domain.{AuctionId, UserId, Auction}
use ubuy_backend.Platform.{Env}
use ubuy_backend.Platform.World.{
  World, Result, Error, ok, err, unauthorized, auction_id_required, amount_not_positive,
}
use ubuy_backend.Auth.Login.{Claims}
use ubuy_backend.Bids.{place_bid}

-- What the gateway calls outside the repository: `jwtService.verify`, which throws on a token that is
-- not signed or has expired, and `Number`, with what the gateway asks of its result.
pub data JsNumber : Type 0 where
  not_finite not_positive : JsNumber
  positive : ℕ → JsNumber

pub record Sockets : Type 0 where
  pub verify : (now : ℕ) → Text → Option Claims
  pub to_number : Text → JsNumber
  -- The text of a user's id, as a token has it.
  pub print_id : UserId → Text

-- The name that `client.join(room)` takes: any text.
abbrev pub Room : Type 0
Room = Text

-- `handshake.query.token`
pub data QueryToken : Type 0 where
  missing : QueryToken
  text : Text → QueryToken
  -- The first entry of an array, if it is a string.
  several : Option Text → QueryToken

-- A socket: its handshake, `client.data.user` and the rooms that it is in.
pub record Client : Type 0 where
  pub auth_token : Option Text
  pub authorization : Option Text
  pub query_token : QueryToken
  pub user : Option Claims
  pub rooms : List Room

abbrev pub bearer_token : Option Text → Option Text
bearer_token none = none
bearer_token (some header) = second (split b' ' header)

abbrev pub normalized_query_token : QueryToken → Option Text
normalized_query_token missing = none
normalized_query_token (text t) = some t
normalized_query_token (several t) = t

abbrev pub first_given : Option Text → Option Text → Option Text
first_given none b = b
first_given (some a) b = some a

abbrev pub token_of : Client → Option Text
token_of c = present (
    first_given c.auth_token
      (first_given (bearer_token c.authorization) (normalized_query_token c.query_token)))

abbrev pub join : Room → Client → Client
join r c =
    if is_some (first (same_text r) c.rooms) then c else record c { rooms = c.rooms ++ r ∷ [] }

abbrev pub without : Room → List Room → List Room
without r [] = []
without r (x ∷ xs) = let rest = without r xs in if same_text r x then rest else x ∷ rest

abbrev pub leave : Room → Client → Client
leave r c = record c { rooms = without r c.rooms }

-- `user:${user.userId}`
abbrev pub user_room : Sockets → UserId → Room
user_room s u = codes "user:" ++ s.print_id u

abbrev pub join_own : Sockets → Option Claims → Client → Client
join_own s none c = c
join_own s (some u) c = join (user_room s u.sub) c

abbrev pub join_as : Sockets → Room → Client → Client
join_as s r c = join r (join_own s c.user c)

-- A bid as it is sent, and the response that is acknowledged or returned.
pub data Amount : Type 0 where
  no_amount : Amount
  number : JsNumber → Amount
  digits : Text → Amount

pub data Reply : Type 0 where
  nothing : Reply
  returned : Auction → Reply
  thrown : Error → Reply

pub record BidOutcome : Type 0 where
  pub acks : List (Result Auction)
  pub reply : Reply
  pub client : Client

module _ (s : Sockets) where
  abbrev pub with_claims : Client → Option Claims → Client
  with_claims c none = c
  with_claims c (some u) = record c { user = some u }

  abbrev pub verified_token : ℕ → Option Text → Option Claims
  verified_token now none = none
  verified_token now (some t) = s.verify now t

  -- `tryHydrateUserFromHandshake`: the user that it answers is the one that it leaves.
  unfoldable pub hydrate : ℕ → Client → Client
  hydrate now c = if is_some c.user then c else with_claims c (verified_token now (token_of c))

  -- `WsJwtGuard.canActivate`
  unfoldable pub can_activate : ℕ → Client → Option Client
  can_activate now c =
      let u = verified_token now (token_of c) in if is_some u then some (with_claims c u) else none

  -- The text that a message names is missing where it is not given or is empty. It is taken as the
  -- name of a room as it is.
  unfoldable pub handle_join_auction : ℕ → Option Text → Client → Result ⊤ × Client
  unfolding hydrate
  handle_join_auction now payload c = elim (present payload) [
    | none ↦ (err auction_id_required, c)
    | some r ↦ (ok tt, join_as s r (hydrate now c))
  ]

  unfoldable pub handle_leave_auction : Option Text → Client → Result ⊤ × Client
  handle_leave_auction payload c = elim (present payload) [
    | none ↦ (err auction_id_required, c)
    | some r ↦ (ok tt, leave r c)
  ]

  abbrev pub normalized_amount : Amount → JsNumber
  normalized_amount no_amount = not_finite
  normalized_amount (number x) = x
  normalized_amount (digits t) = s.to_number t

module _ (e : Env) (s : Sockets) where
  abbrev pub bid_of : UserId → AuctionId → JsNumber → World → Result Auction × World
  bid_of u i not_finite w = (err amount_not_positive, w)
  bid_of u i not_positive w = (err amount_not_positive, w)
  bid_of u i (positive x) w = place_bid e u i x w

  abbrev pub bid_on : UserId → Option AuctionId → JsNumber → World → Result Auction × World
  bid_on u none x w = (err auction_id_required, w)
  bid_on u (some i) x w = bid_of u i x w

  -- The `try` block of `handlePlaceBid`, for the user of the socket.
  abbrev pub bid_as : Option Claims → Option AuctionId → Amount → World → Result Auction × World
  bid_as none i x w = (err unauthorized, w)
  bid_as (some u) i x w = bid_on u.sub i (normalized_amount s x) w

  -- `sendAckOnce`: what has been acknowledged, and whether it answers true.
  abbrev pub send_ack_once :
      Bool → Result Auction → List (Result Auction) → List (Result Auction) × Bool
  send_ack_once false response sent = (sent, false)
  send_ack_once true response [] = (response ∷ [], true)
  send_ack_once true response (r ∷ sent) = (r ∷ sent, true)

  -- Without an acknowledgement the response is returned or thrown.
  abbrev pub reply_of : Bool → Result Auction → Reply
  reply_of true r = nothing
  reply_of false (ok a) = returned a
  reply_of false (err x) = thrown x

  abbrev pub respond : Bool → Result Auction → Client → BidOutcome
  respond ack r c =
      let (sent, done) = send_ack_once ack r [] in
      record { acks = sent; reply = reply_of done r; client = c }

  unfoldable pub handle_place_bid :
      Client → Option AuctionId → Amount → Bool → World → BidOutcome × World
  unfolding hydrate place_bid
  handle_place_bid c i x ack w =
      let c' = hydrate s w.now c in let (r, w') = bid_as c'.user i x w in (respond ack r c', w')
