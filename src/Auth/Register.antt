-- ===== src/Auth/Register.antt =====
-- modules/auth/auth.service.ts: `signup`, `verifyEmail` and `resendCode` for a verification code.
use ubuy_backend.Base.{ℕ, ◌+◌, true, false, not, none, some, [], ltb, is_some, ⊤}
use ubuy_backend.Texts.{Text, is_text}
use ubuy_backend.Domain.{UserId, User, Provider, MailKind}
use ubuy_backend.Platform.{Env}
use ubuy_backend.Platform.Calls.{send_mail}
use ubuy_backend.Platform.World.{
  World, Action, ok, user_exists, user_not_found, already_verified, invalid_code, code_expired,
  mail_failed, gets, or_throw, throw_if, instead, ◌>>=◌, ◌>>◌,
}
use ubuy_backend.Users.{find_by_email, create_user, save_user}
use ubuy_backend.Auth.Keys.{Keys}
use ubuy_backend.Auth.Codes.{generate_verification_code, code_lifetime_ms}

-- The document of `signup`, with the defaults of the schema.
abbrev pub new_user : Text → Text → Text → Text → ℕ → ℕ → UserId → User
new_user email username hashed code expiry now i = record {
  id = i;
  email = email;
  username = some username;
  password = some hashed;
  name = none;
  image = none;
  is_verified = false;
  google_id = none;
  provider = Provider.local;
  bidded_auctions = [];
  verification_code = some code;
  verification_code_expiry = some expiry;
  password_reset_code = none;
  password_reset_code_expiry = none;
  failed_login_attempts = 0;
  locked_until = none;
  created_at = now;
}

abbrev pub mark_verified : User → User
mark_verified u = record u {
  is_verified = true;
  verification_code = none;
  verification_code_expiry = none;
}

abbrev pub set_verification : Text → ℕ → User → User
set_verification code expiry u = record u {
  verification_code = some code;
  verification_code_expiry = some expiry;
}

module _ (k : Keys) where
  -- `bcrypt.hash`, which draws a salt.
  unfoldable pub hash_password : Text → Action Text
  hash_password p w = (ok (k.hash w.draws p), record w { draws = w.draws + 1 })

module _ (e : Env) (k : Keys) where
  -- The mail of `signup` and `resendCode`; a failure is reported as one of the server.
  unfoldable pub mail_code : MailKind → Text → Text → Action ⊤
  unfolding send_mail
  mail_code kind email code =
      instead (send_mail e (record { kind = kind; to = email; code = code })) mail_failed

  -- `signup` below its test.
  unfoldable pub register : Text → Text → Text → Action ⊤
  unfolding hash_password generate_verification_code create_user mail_code
  register email password username = do
    hashed ← hash_password k password
    code ← generate_verification_code k
    now ← gets World.now
    create_user e (new_user email username hashed code (now + code_lifetime_ms) now)
    mail_code MailKind.verification email code

  unfoldable pub signup : Text → Text → Text → Action ⊤
  unfolding find_by_email register
  signup email password username = do
    existing ← find_by_email e email
    throw_if (is_some existing) user_exists
    register email password username

  -- `verifyEmail` with the user in hand.
  unfoldable pub verify_user : User → Text → Action ⊤
  unfolding save_user
  verify_user user code = do
    throw_if user.is_verified already_verified
    throw_if (not (is_text user.verification_code code)) invalid_code
    expiry ← or_throw user.verification_code_expiry invalid_code
    now ← gets World.now
    throw_if (ltb expiry now) code_expired
    save_user e user.id mark_verified

  unfoldable pub verify_email : Text → Text → Action ⊤
  unfolding find_by_email verify_user
  verify_email email code = do
    user ← or_throw (← find_by_email e email) user_not_found
    verify_user user code

  -- The branch of `resendCode` for `email-verification`.
  unfoldable pub resend_verification : Text → User → Action ⊤
  unfolding generate_verification_code save_user mail_code
  resend_verification email user = do
    throw_if user.is_verified already_verified
    code ← generate_verification_code k
    now ← gets World.now
    save_user e user.id (set_verification code (now + code_lifetime_ms))
    mail_code MailKind.verification email code
