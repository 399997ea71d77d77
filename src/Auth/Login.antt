-- ===== src/Auth/Login.antt =====
-- modules/auth/auth.service.ts: `login`. The answer is the payload of the access token that
-- `issueAccessToken` signs.
use ubuy_backend.Base.{
  ℕ, ◌+◌, ◌*◌, Bool, false, not, ◌||◌, Option, none, some, ltb, leb, is_some, if◌then◌else◌,
}
use ubuy_backend.Texts.{Text, present}
use ubuy_backend.Domain.{UserId, User}
use ubuy_backend.Platform.{Env}
use ubuy_backend.Platform.World.{
  World, Action, user_not_found, invalid_credentials, account_locked, email_not_verified, gets,
  pure, skip, throw, or_throw, throw_if, ◌>>=◌, ◌>>◌,
}
use ubuy_backend.Users.{find_by_email, save_user}
use ubuy_backend.Auth.Keys.{Keys}

abbrev pub max_failed_login_attempts : ℕ
max_failed_login_attempts = 5

abbrev pub login_lock_window_ms : ℕ
login_lock_window_ms = 15 * 60 * 1000

-- `{ sub, email }`
pub record Claims : Type 0 where
  pub sub : UserId
  pub email : Text

-- `user.lockedUntil && user.lockedUntil > new Date()`
abbrev pub is_locked : Option ℕ → ℕ → Bool
is_locked none now = false
is_locked (some until) now = ltb now until

-- The fifth failure locks the account and starts the count again.
abbrev pub count_failure : ℕ → User → User
count_failure now u =
    if leb max_failed_login_attempts (u.failed_login_attempts + 1)
    then record u { failed_login_attempts = 0; locked_until = some (now + login_lock_window_ms) }
    else record u { failed_login_attempts = u.failed_login_attempts + 1 }

abbrev pub clear_failures : User → User
clear_failures u = record u { failed_login_attempts = 0; locked_until = none }

-- `user.failedLoginAttempts || user.lockedUntil`
abbrev pub has_failures : User → Bool
has_failures u = ltb 0 u.failed_login_attempts || is_some u.locked_until

abbrev pub claims_of : User → Claims
claims_of u = record { sub = u.id; email = u.email }

module _ (e : Env) (k : Keys) where
  unfoldable pub refuse_login : User → Action Claims
  unfolding save_user
  refuse_login user = do
    now ← gets World.now
    save_user e user.id (count_failure now)
    throw invalid_credentials

  unfoldable pub accept_login : User → Action Claims
  unfolding save_user
  accept_login user = do
    if has_failures user then save_user e user.id clear_failures else skip
    pure (claims_of user)

  unfoldable pub login_user : User → Text → Action Claims
  unfolding refuse_login accept_login
  login_user user password = do
    hashed ← or_throw (present user.password) invalid_credentials
    now ← gets World.now
    throw_if (is_locked user.locked_until now) account_locked
    throw_if (not user.is_verified) email_not_verified
    if k.compare password hashed then accept_login user else refuse_login user

  unfoldable pub login : Text → Text → Action Claims
  unfolding find_by_email login_user
  login email password = do
    user ← or_throw (← find_by_email e email) user_not_found
    login_user user password
