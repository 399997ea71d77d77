-- ===== src/Auth/Reset.antt =====
-- modules/auth/auth.service.ts: `forgotPassword`, `resendCode`, `verifyPasswordResetCode` and
-- `resetPassword`.
use ubuy_backend.Base.{ℕ, ◌+◌, Bool, true, not, ◌&&◌, Option, none, some, ltb, is_none, ⊤}
use ubuy_backend.Texts.{Text, is_text, present}
use ubuy_backend.Domain.{User, Provider, MailKind}
use ubuy_backend.Domain.Equality.{is_google}
use ubuy_backend.Platform.{Env}
use ubuy_backend.Platform.World.{
  World, Action, user_not_found, invalid_code, code_expired, google_account, gets, skip, or_throw,
  throw_if, ◌>>=◌, ◌>>◌,
}
use ubuy_backend.Users.{find_by_email, save_user}
use ubuy_backend.Auth.Keys.{Keys}
use ubuy_backend.Auth.Codes.{generate_verification_code, code_lifetime_ms}
use ubuy_backend.Auth.Register.{hash_password, mail_code, resend_verification}

-- `user.provider === 'google' && !user.password`
abbrev pub is_google_only : User → Bool
is_google_only u = is_google u.provider && is_none (present u.password)

-- `!expiry || expiry < new Date()`
abbrev pub has_expired : Option ℕ → ℕ → Bool
has_expired none now = true
has_expired (some expiry) now = ltb expiry now

abbrev pub set_reset : Text → ℕ → User → User
set_reset code expiry u = record u {
  password_reset_code = some code;
  password_reset_code_expiry = some expiry;
}

abbrev pub set_password : Text → User → User
set_password hashed u = record u {
  password = some hashed;
  provider = Provider.local;
  password_reset_code = none;
  password_reset_code_expiry = none;
}

pub data Purpose : Type 0 where
  email_verification password_reset : Purpose

module _ (e : Env) (k : Keys) where
  -- What `forgotPassword` and `resendCode` do for a user who has a password.
  unfoldable pub send_reset_code : Text → User → Action ⊤
  unfolding generate_verification_code save_user mail_code
  send_reset_code email user = do
    throw_if (is_google_only user) google_account
    code ← generate_verification_code k
    now ← gets World.now
    save_user e user.id (set_reset code (now + code_lifetime_ms))
    mail_code e k MailKind.password_reset email code

  abbrev pub forgot_for : Text → Option User → Action ⊤
  forgot_for email none = skip
  forgot_for email (some user) = send_reset_code email user

  unfoldable pub forgot_password : Text → Action ⊤
  unfolding find_by_email send_reset_code
  forgot_password email = do forgot_for email (← find_by_email e email)

  abbrev pub resend_for : Purpose → Text → User → Action ⊤
  resend_for email_verification email user = resend_verification e k email user
  resend_for password_reset email user = send_reset_code email user

  unfoldable pub resend_code : Text → Purpose → Action ⊤
  unfolding find_by_email resend_verification send_reset_code
  resend_code email purpose = do
    user ← or_throw (← find_by_email e email) user_not_found
    resend_for purpose email user

  -- The two tests that `verifyPasswordResetCode` and `resetPassword` share.
  unfoldable pub check_reset_code : User → Text → Action ⊤
  check_reset_code user code = do
    throw_if (not (is_text user.password_reset_code code)) invalid_code
    now ← gets World.now
    throw_if (has_expired user.password_reset_code_expiry now) code_expired

  unfoldable pub verify_password_reset_code : Text → Text → Action ⊤
  unfolding find_by_email check_reset_code
  verify_password_reset_code email code = do
    user ← or_throw (← find_by_email e email) user_not_found
    check_reset_code user code

  unfoldable pub reset_user : User → Text → Text → Action ⊤
  unfolding check_reset_code hash_password save_user
  reset_user user code new_password = do
    check_reset_code user code
    hashed ← hash_password k new_password
    save_user e user.id (set_password hashed)

  unfoldable pub reset_password : Text → Text → Text → Action ⊤
  unfolding find_by_email reset_user
  reset_password email code new_password = do
    user ← or_throw (← find_by_email e email) user_not_found
    reset_user user code new_password
