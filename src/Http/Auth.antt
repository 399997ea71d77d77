-- ===== src/Http/Auth.antt =====
-- The handlers of modules/auth/auth.controller.ts, each with the guard of its route.
use ubuy_backend.Base.{Bool, not, ◌==◌, ⊤}
use ubuy_backend.Texts.{Text}
use ubuy_backend.Domain.{UserId, User}
use ubuy_backend.Platform.{Env}
use ubuy_backend.Platform.World.{Action, forbidden, throw_if, ◌>>=◌, ◌>>◌}
use ubuy_backend.Auth.Keys.{Keys}
use ubuy_backend.Auth.Login.{Claims, login}
use ubuy_backend.Auth.Profile.{
  ProfileChange, Identifier, PublicProfile, get_profile_by_id, update_profile, get_public_profile,
}
use ubuy_backend.Auth.Usernames.{check_username_unique}
use ubuy_backend.Auth.Register.{signup, verify_email}
use ubuy_backend.Auth.Reset.{
  Purpose, forgot_password, resend_code, verify_password_reset_code, reset_password,
}
use ubuy_backend.Auth.Google.{GoogleReply, google_auth}
use ubuy_backend.Http.Guard.{Token, use_guard, user_id_of}

module _ (e : Env) where
  -- `body.userId` has to be the user's own id.
  unfoldable pub own_profile : UserId → UserId → Action User
  own_profile i u = throw_if (not (i == u)) forbidden >> get_profile_by_id e i

  unfoldable pub get_profile_legacy_compatibility : Token → (body_user_id : UserId) → Action User
  unfolding use_guard own_profile
  get_profile_legacy_compatibility token i =
      use_guard e token λ user. do u ← user_id_of user; own_profile i u

  unfoldable pub patch_profile : Token → ProfileChange → Action User
  unfolding use_guard
  patch_profile token body =
      use_guard e token λ user. do u ← user_id_of user; update_profile e u body

  unfoldable pub get_profile : Token → Action User
  unfolding use_guard
  get_profile token = use_guard e token λ user. do u ← user_id_of user; get_profile_by_id e u

-- The routes without a guard, each with the fields of its body or of its query.
module _ (e : Env) (k : Keys) where
  unfoldable pub get_username_check : (username : Text) → Action Bool
  get_username_check username = check_username_unique e k username

  unfoldable pub post_username_check : (username : Text) → Action Bool
  post_username_check username = check_username_unique e k username

  unfoldable pub post_signup : (email password username : Text) → Action ⊤
  post_signup email password username = signup e k email password username

  unfoldable pub post_login : (email password : Text) → Action Claims
  post_login email password = login e k email password

  unfoldable pub post_google : (id_token : Text) → Action GoogleReply
  post_google id_token = google_auth e k id_token

  unfoldable pub post_verify_email : (email code : Text) → Action ⊤
  post_verify_email email code = verify_email e k email code

  unfoldable pub post_forgot_password : (email : Text) → Action ⊤
  post_forgot_password email = forgot_password e k email

  unfoldable pub post_resend_code : (email : Text) → Purpose → Action ⊤
  post_resend_code email purpose = resend_code e k email purpose

  unfoldable pub post_reset_code : (email code : Text) → Action ⊤
  post_reset_code email code = verify_password_reset_code e k email code

  unfoldable pub post_verify_code : (email code : Text) → Action ⊤
  post_verify_code email code = verify_password_reset_code e k email code

  unfoldable pub post_reset_password : (email code new_password : Text) → Action ⊤
  post_reset_password email code new_password = reset_password e k email code new_password

  unfoldable pub get_public_profile_of : Identifier → Action PublicProfile
  get_public_profile_of who = get_public_profile e k who
