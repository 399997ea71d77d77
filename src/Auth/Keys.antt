-- ===== src/Auth/Keys.antt =====
-- What modules/auth/auth.service.ts calls outside the repository, as a parameter: bcrypt, the random
-- numbers, lower case, and Google's check of a token.
use ubuy_backend.Base.{ℕ, ◌≡◌, ◌<◌, Bool, true, Option, ◌∷◌}
use ubuy_backend.Texts.{Text}

-- The claims of a Google token, `none` where one is missing.
pub record GoogleClaims : Type 0 where
  pub sub : Option Text
  pub email : Option Text
  pub email_verified : Bool
  pub name : Option Text
  pub picture : Option Text

-- `verifyIdToken` throws, or gives a ticket, which has a payload or not.
pub data Ticket : Type 0 where
  rejected no_payload : Ticket
  claims : GoogleClaims → Ticket

pub record Keys : Type 0 where
  -- `bcrypt.hash(password, 10)` with the n-th salt, and `bcrypt.compare(password, hash)`
  pub hash : ℕ → Text → Text
  pub compare : Text → Text → Bool
  pub compare-hash : (n : ℕ) (p : Text) → compare p (hash n p) ≡ true
  -- A hash is not the empty text.
  pub hash_starts : (n : ℕ) (p : Text) → (x : ℕ) × (t : Text) × (hash n p ≡ x ∷ t)
  -- `Math.floor(Math.random() * m)` at the n-th draw
  pub random_below : ℕ → ℕ → ℕ
  pub random_below-lt : (n m : ℕ) → 0 < m → random_below n m < m
  -- `toLowerCase` and `trim`
  pub lower : Text → Text
  pub trim : Text → Text
  -- `GOOGLE_CLIENT_ID` is configured.
  pub google_configured : Bool
  pub verify_id_token : Text → Ticket
