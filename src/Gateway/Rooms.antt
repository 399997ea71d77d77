-- ===== src/Gateway/Rooms.antt =====
-- modules/bids/bids.gateway.ts: the rooms that a socket is in.
use ubuy_backend.Base.{
  ℕ, ◌≡◌, refl, ◌∙◌, sym, subst, Bool, true, false, ◌||◌, Option, none, some, is_some, List, [],
  ◌∷◌, ◌++◌, first, All, All-snoc, arith, Bool-cases, inl, inr,
}
use ubuy_backend.Texts.{Text, same_text, same_text_self, present, is_text}
use ubuy_backend.Domain.{AuctionId, UserId}
use ubuy_backend.Platform.{Env}
use ubuy_backend.Platform.World.{World}
use ubuy_backend.Auth.Login.{Claims}
use ubuy_backend.Gateway.{
  Sockets, Client, Room, user_room, Amount, join, join_own, join_as, without, hydrate,
  handle_join_auction, handle_leave_auction, handle_place_bid,
}

-- A message of the client.
pub data Message : Type 0 where
  joins leaves : Option Text → Message
  bids : Option AuctionId → Amount → Bool → Message

abbrev pub is_in : Room → List Room → Bool
is_in r rooms = is_some (first (same_text r) rooms)

-- Whether one of the messages asks to join the room.
abbrev pub asks_for : Room → Message → Bool
asks_for r (joins payload) = is_text (present payload) r
asks_for r (leaves payload) = false
asks_for r (bids o x ack) = false

abbrev pub asked_for : Room → List (Message × World) → Bool
asked_for r [] = false
asked_for r ((m, w) ∷ ms) = asks_for r m || asked_for r ms

-- How a socket may have come to be in a room: it was in it before, it asked for it, or the room is
-- that of its own user.
pub data IsFrom (s : Sockets) (c : Client) (ms : List (Message × World)) (user : Option Claims)
    (r : Room) : Type 0 where
  before : is_in r c.rooms ≡ true → IsFrom s c ms user r
  asked : asked_for r ms ≡ true → IsFrom s c ms user r
  own : (u : Claims) → user ≡ some u → r ≡ user_room s u.sub → IsFrom s c ms user r

without-All : (P : Room → Type 0) (r : Room) (c : List Room) → All P c → All P (without r c)
without-All P r [] h = tt
without-All P r (x ∷ c) (h, hs) = elim (Bool-cases (same_text r x)) [
  | inl same ↦ rw same (without-All P r c hs)
  | inr other ↦ rw other (h, without-All P r c hs)
]

join-All :
    (P : Room → Type 0) (r : Room) (c : Client) → P r → All P c.rooms → All P (join r c).rooms
join-All P r c k h = elim (Bool-cases (is_in r c.rooms)) [
  | inl there ↦ rw there h
  | inr new ↦ rw new (All-snoc P c.rooms r h k)
]

is_in-snoc : (r : Room) (rooms : List Room) → is_in r (rooms ++ r ∷ []) ≡ true
is_in-snoc r [] = rw (same_text_self r) refl
is_in-snoc r (x ∷ rooms) = ground (arith, is_in-snoc r rooms)

is_in-join : (r : Room) (c : Client) → is_in r (join r c).rooms ≡ true
is_in-join r c = elim (Bool-cases (is_in r c.rooms)) [
  | inl there ↦ rw there there
  | inr new ↦ rw new (is_in-snoc r c.rooms)
]

-- What holds of all that is in a list holds of its rooms.
is_in-All :
    (P : Room → Type 0) (rooms : List Room)
    → ((r : Room) → is_in r rooms ≡ true → P r)
    → All P rooms
is_in-All P [] k = tt
is_in-All P (x ∷ rooms) k =
    (k x (rw (same_text_self x) refl), is_in-All P rooms (λ r q. k r (ground (arith, q))))

join-user : (r : Room) (c : Client) → (join r c).user ≡ c.user
join-user r c = ground arith

module _ (e : Env) (s : Sockets) where
  hydrate-rooms : (now : ℕ) (c : Client) → (hydrate s now c).rooms ≡ c.rooms
  unfolding hydrate
  hydrate-rooms now c = ground arith

  hydrate-user :
      (now : ℕ) (c : Client) (u : Claims) → c.user ≡ some u → (hydrate s now c).user ≡ some u
  unfolding hydrate
  hydrate-user now c u h = ground arith

  join_own-user : (user : Option Claims) (c : Client) → (join_own s user c).user ≡ c.user
  join_own-user none c = refl
  join_own-user (some u) c = join-user (user_room s u.sub) c

  join_as-user : (r : Room) (c : Client) → (join_as s r c).user ≡ c.user
  join_as-user r c = join-user r (join_own s c.user c) ∙ join_own-user c.user c

  join_own-All :
      (P : Room → Type 0) (user : Option Claims) (c : Client)
      → ((u : Claims) → user ≡ some u → P (user_room s u.sub))
      → All P c.rooms
      → All P (join_own s user c).rooms
  join_own-All P none c k h = h
  join_own-All P (some u) c k h = join-All P (user_room s u.sub) c (k u refl) h

  -- What a message makes of the socket, at a state of the services.
  unfoldable pub handle : Message → World → Client → Client
  handle (joins payload) w c = (handle_join_auction s w.now payload c).1
  handle (leaves payload) w c = (handle_leave_auction s payload c).1
  handle (bids o x ack) w c = (handle_place_bid e s c o x ack w).0.client

  unfoldable pub handle_all : List (Message × World) → Client → Client
  unfolding handle
  handle_all [] c = c
  handle_all ((m, w) ∷ ms) c = handle_all ms (handle m w c)

  -- The user of a socket stays.
  handle-user :
      (m : Message) (w : World) (c : Client) (u : Claims)
      → c.user ≡ some u
      → (handle m w c).user ≡ some u
  unfolding handle handle_join_auction handle_leave_auction handle_place_bid
  handle-user (joins none) w c u h = h
  handle-user (joins (some [])) w c u h = h
  handle-user (joins (some (x ∷ t))) w c u h =
      join_as-user (x ∷ t) (hydrate s w.now c) ∙ hydrate-user w.now c u h
  handle-user (leaves none) w c u h = h
  handle-user (leaves (some [])) w c u h = h
  handle-user (leaves (some (x ∷ t))) w c u h = h
  handle-user (bids o x ack) w c u h = hydrate-user w.now c u h

  handle_all-user :
      (ms : List (Message × World)) (c : Client) (u : Claims)
      → c.user ≡ some u
      → (handle_all ms c).user ≡ some u
  unfolding handle_all
  handle_all-user [] c u h = h
  handle_all-user ((m, w) ∷ ms) c u h = handle_all-user ms (handle m w c) u (handle-user m w c u h)

  handle-All :
      (P : Room → Type 0) (m : Message) (w : World) (c : Client)
      → ((r : Room) → asks_for r m ≡ true → P r)
      → ((u : Claims) → (handle m w c).user ≡ some u → P (user_room s u.sub))
      → All P c.rooms
      → All P (handle m w c).rooms
  unfolding handle handle_join_auction handle_leave_auction handle_place_bid
  handle-All P (joins none) w c k l h = h
  handle-All P (joins (some [])) w c k l h = h
  handle-All P (joins (some (x ∷ t))) w c k l h =
      let c' = hydrate s w.now c in
      join-All P (x ∷ t) (join_own s c'.user c') (k (x ∷ t) (same_text_self (x ∷ t))) (
        join_own-All P c'.user c' (λ u q. l u (join_as-user (x ∷ t) c' ∙ q))
          (subst (All P) (sym (hydrate-rooms w.now c)) h))
  handle-All P (leaves none) w c k l h = h
  handle-All P (leaves (some [])) w c k l h = h
  handle-All P (leaves (some (x ∷ t))) w c k l h = without-All P (x ∷ t) c.rooms h
  handle-All P (bids o x ack) w c k l h = subst (All P) (sym (hydrate-rooms w.now c)) h

  handle_all-All :
      (P : Room → Type 0) (ms : List (Message × World)) (c : Client)
      → ((r : Room) → asked_for r ms ≡ true → P r)
      → ((u : Claims) → (handle_all ms c).user ≡ some u → P (user_room s u.sub))
      → All P c.rooms
      → All P (handle_all ms c).rooms
  unfolding handle_all
  handle_all-All P [] c k l h = h
  handle_all-All P ((m, w) ∷ ms) c k l h =
      handle_all-All P ms (handle m w c) (λ r q. k r (ground (arith, q))) l
        (handle-All P m w c (λ r q. k r (ground (arith, q)))
          (λ u q. l u (handle_all-user ms (handle m w c) u q)) h)

  -- The message that joins a room, whichever it is, puts the socket in it.
  handle-joins :
      (r : Room) (w : World) (c : Client)
      → present (some r) ≡ some r
      → is_in r (handle (joins (some r)) w c).rooms ≡ true
  unfolding handle handle_join_auction
  handle-joins [] w c h = cc
  handle-joins (x ∷ t) w c h =
      let c' = hydrate s w.now c in is_in-join (x ∷ t) (join_own s c'.user c')

  -- Whatever messages a socket sends, and whatever the services do between them, each room that it is
  -- then in was its room before, or is named by one of the join messages, or is the room of its own
  -- user. No more than that holds: a further join message with the name of the room of any user, by a
  -- socket with any user or none, puts it in that room.
  pub handle_all_lem :
      (ms : List (Message × World)) (c : Client) (w : World) (v : UserId)
      → All (IsFrom s c ms (handle_all ms c).user) (handle_all ms c).rooms
        × (is_in (user_room s v) (handle (joins (some (user_room s v))) w (handle_all ms c)).rooms
            ≡ true)
  handle_all_lem ms c w v = (
    handle_all-All (IsFrom s c ms (handle_all ms c).user) ms c (λ r. asked) (λ u q. own u q refl)
        (is_in-All (IsFrom s c ms (handle_all ms c).user) c.rooms (λ r. before)),
    handle-joins (user_room s v) w (handle_all ms c) refl,
  )
