-- ===== src/Platform/World.antt =====
-- The state that the services share, and the monad of their methods: a method that throws keeps
-- what it has written so far.
use ubuy_backend.Base.{
  ◌≡◌, refl, ap, ◌⊎◌, inl, inr, ℕ, Bool, true, false, Option, none, some, List, ◌++◌, [], ◌∷◌, ⊤,
}
use ubuy_backend.Domain.{AuctionId, Auction, Bid, User, Wishlist, Notification, Job, Emit, Mail}

-- Redis keys `lock:auction:<id>` with the time at which they expire.
abbrev pub Locks : Type 0
Locks = List (AuctionId × ℕ)

pub record World : Type 0 where
  pub now : ℕ  -- `Date.now()`
  pub auctions : List Auction
  pub bids : List Bid
  pub users : List User
  pub wishlists : List Wishlist
  pub notifications : List Notification
  pub jobs : List Job  -- `auctionQueue`
  pub locks : Locks
  pub emitted : List Emit  -- socket events, oldest first
  pub calls : ℕ  -- guarded calls made so far
  pub issued : ℕ  -- document ids given out so far
  pub draws : ℕ  -- random numbers drawn so far
  pub mails : List Mail  -- mails that were sent, oldest first

-- What is thrown, one constructor for each message.
pub data Error : Type 0 where
  auction_not_found not_auction_creator paid_auction cancelled_auction : Error
  end_before_start auction_not_ended no_winner not_current_winner winner_mismatch : Error
  already_paid invalid_auction_id lock_taken own_auction auction_has_ended : Error
  auction_not_active consecutive_bids bid_too_low outbid_meanwhile unavailable : Error
  user_not_found unauthorized wishlist_entry_not_found duplicate_key : Error
  user_exists already_verified invalid_code code_expired mail_failed google_account : Error
  invalid_credentials account_locked email_not_verified username_taken update_failed : Error
  google_not_configured invalid_google_token google_failed auction_id_required : Error
  amount_not_positive missing_category : Error
  link_id_required cashfree_not_configured cashfree_failed payment_not_successful : Error
  invalid_link_id email_mismatch link_id_too_long forbidden : Error

pub data Result (A : Type 0) : Type 0 where
  ok : A → Result A
  err : Error → Result A

abbrev pub Action : Type 0 → Type 0
Action A = World → Result A × World

module _ {A : Type 0} where
  abbrev pub pure : A → Action A
  pure a w = (ok a, w)

  abbrev pub throw : Error → Action A
  throw x w = (err x, w)

  abbrev pub gets : (World → A) → Action A
  gets f w = (ok (f w), w)

  abbrev pub or_throw : Option A → Error → Action A
  or_throw none x w = (err x, w)
  or_throw (some a) x w = (ok a, w)

  -- `try { … } finally { after }`
  abbrev pub finally : Action A → (World → World) → Action A
  finally m after w = let (r, w') = m w in (r, after w')

infixl 5 ◌>>=◌ ◌>>◌
abbrev pub ◌>>=◌ : {A B : Type 0} → Action A → (A → Action B) → Action B
◌>>=◌ m f w = let (r, w') = m w in elim r [ ok a ↦ f a w' | err x ↦ (err x, w') ]

abbrev pub ◌>>◌ : {A B : Type 0} → Action A → Action B → Action B
m >> k = m >>= λ _. k

abbrev pub modify : (World → World) → Action ⊤
modify f w = (ok tt, f w)

abbrev pub throw_if : Bool → Error → Action ⊤
throw_if true x w = (err x, w)
throw_if false x w = (ok tt, w)

abbrev pub skip : Action ⊤
skip w = (ok tt, w)

-- `try { … } catch { logger.warn(…) }`
abbrev pub attempt : Action ⊤ → Action ⊤
attempt m w = let (_, w') = m w in (ok tt, w')

-- `try { … } catch { throw x }`
abbrev pub instead : {A : Type 0} → Action A → Error → Action A
instead m x w = let (r, w') = m w in elim r [ ok a ↦ (ok a, w') | err y ↦ (err x, w') ]

-- `server.to(room).emit(event)`
abbrev pub emit : Emit → Action ⊤
emit x w = (ok tt, record w { emitted = w.emitted ++ x ∷ [] })

-- `Promise.all(items.map(f))`: every call is made, and the first rejection is thrown.
abbrev pub first_error : {A : Type 0} → Result A → Result A → Result A
first_error (err x) r = err x
first_error (ok a) r = r

unfoldable pub for_all : {A : Type 0} → (A → Action ⊤) → List A → Action ⊤
for_all f [] w = (ok tt, w)
for_all f (x ∷ xs) w =
    let (r, w') = f x w in let (s, w'') = for_all f xs w' in (first_error r s, w'')

-- A guard lets the rest run, or throws and leaves the world as it is.
pub throw_if-cases :
    {A : Type 0} (b : Bool) (x : Error) (k : Action A) (w : World)
    → ((b ≡ false) × ((throw_if b x >> k) w ≡ k w)) ⊎ ((throw_if b x >> k) w ≡ (err x, w))
throw_if-cases true x k w = inr refl
throw_if-cases false x k w = inl (refl, refl)

-- A call that answered goes on with its answer.
pub after :
    {A B : Type 0} (m : Action A) (k : A → Action B) (w : World) {w' : World} {a : A}
    → m w ≡ (ok a, w')
    → (m >>= k) w ≡ k a w'
after {A = A} m k w h =
    ap (λ (r : Result A × World). elim r.0 [ ok a ↦ k a r.1 | err x ↦ (err x, r.1) ]) h

abbrev pub is_ok : {A : Type 0} → Result A → Bool
is_ok (ok a) = true
is_ok (err x) = false

-- A method that answers has had its first call answered.
pub bind-is_ok :
    {A B : Type 0} (m : Action A) (f : A → Action B) (w : World)
    → is_ok ((m >>= f) w).0 ≡ true
    → is_ok (m w).0 ≡ true
bind-is_ok {A} {B} m f w h = go (m w) h
  where
    go :
        (r : Result A × World)
        → is_ok (◌>>=◌ {A = A} {B = B} (λ _. r) f w).0 ≡ true
        → is_ok r.0 ≡ true
    go (ok a, w') h = refl
    go (err x, w') h = h
