-- ===== src/Auth/Google.antt =====
-- modules/auth/auth.service.ts: `googleAuth`.
use ubuy_backend.Base.{
  ℕ, Bool, true, false, not, Option, none, some, [], is_none, is_some, ◌&&◌, if◌then◌else◌,
}
use ubuy_backend.Texts.{Text, codes, present, split, head, or_text}
use ubuy_backend.Domain.{UserId, User, Provider}
use ubuy_backend.Platform.{Env}
use ubuy_backend.Platform.World.{
  World, Action, google_not_configured, invalid_google_token, email_not_verified, google_failed,
  gets, pure, or_throw, throw_if, instead, ◌>>=◌, ◌>>◌,
}
use ubuy_backend.Users.{find_by_email, create_user, save_user, save_named}
use ubuy_backend.Auth.Keys.{Keys, GoogleClaims, Ticket, rejected, no_payload, claims}
use ubuy_backend.Auth.Usernames.{generate_unique_username}
use ubuy_backend.Auth.Reset.{has_expired}
use ubuy_backend.Auth.Login.{Claims, claims_of}

-- The claims that the service insists on, and the two that it may store.
pub record Identity : Type 0 where
  pub google_id : Text
  pub email : Text
  pub name : Option Text
  pub picture : Option Text

pub record GoogleReply : Type 0 where
  pub token : Claims
  pub is_new_user : Bool
  pub user : User

abbrev pub payload_of : Ticket → Option GoogleClaims
payload_of rejected = none
payload_of no_payload = none
payload_of (claims c) = some c

-- `email.split('@')[0] || payload.name || 'user'`
abbrev pub name_or : Option Text → Text
name_or none = codes "user"
name_or (some name) = or_text name (codes "user")

abbrev pub username_seed : Identity → Text
username_seed p = or_text (head (split b'@' p.email)) (name_or p.name)

abbrev pub new_google_user : Identity → Text → ℕ → UserId → User
new_google_user p username now i = record {
  id = i;
  email = p.email;
  username = some username;
  password = none;
  name = p.name;
  image = p.picture;
  is_verified = true;
  google_id = some p.google_id;
  provider = Provider.google;
  bidded_auctions = [];
  verification_code = none;
  verification_code_expiry = none;
  password_reset_code = none;
  password_reset_code_expiry = none;
  failed_login_attempts = 0;
  locked_until = none;
  created_at = now;
}

-- `if (!old && new) old = new`
abbrev pub fill : Option Text → Option Text → Option Text
fill old new = if is_none (present old) && is_some (present new) then new else old

-- `if (!expiry || expiry < new Date()) …`, for the code and its expiry
abbrev pub drop_expired : ℕ → User → User
drop_expired now u =
    if has_expired u.verification_code_expiry now
    then record u { verification_code = none; verification_code_expiry = none }
    else u

-- The assignments to the user who is there already.
abbrev pub link : Identity → Option Text → ℕ → User → User
link p username now u = drop_expired now (record u {
  google_id = some p.google_id;
  provider = Provider.google;
  is_verified = true;
  name = fill u.name p.name;
  image = fill u.image p.picture;
  username = username;
})

abbrev pub reply_with : Bool → User → GoogleReply
reply_with new u = record { token = claims_of u; is_new_user = new; user = u }

-- The part above the second `try`: from the token to an identity.
module _ (k : Keys) where
  abbrev pub check_claims : GoogleClaims → Action Identity
  check_claims c = do
    google_id ← or_throw (present c.sub) invalid_google_token
    email ← or_throw (present c.email) invalid_google_token
    throw_if (not c.email_verified) email_not_verified
    pure (record { google_id = google_id; email = email; name = c.name; picture = c.picture })

  unfoldable pub identify : Text → Action Identity
  identify id_token = do
    throw_if (not k.google_configured) google_not_configured
    c ← or_throw (payload_of (k.verify_id_token id_token)) invalid_google_token
    check_claims c

module _ (e : Env) (k : Keys) where
  unfoldable pub create_google_user : Identity → Action GoogleReply
  unfolding generate_unique_username create_user
  create_google_user p = do
    username ← generate_unique_username e k (username_seed p)
    now ← gets World.now
    user ← create_user e (new_google_user p username now)
    pure (reply_with true user)

  unfoldable pub link_named : Identity → User → Action GoogleReply
  unfolding save_user
  link_named p user = do
    now ← gets World.now
    save_user e user.id (link p user.username now)
    pure (reply_with false (link p user.username now user))

  unfoldable pub link_nameless : Identity → User → Action GoogleReply
  unfolding generate_unique_username save_named
  link_nameless p user = do
    username ← generate_unique_username e k (username_seed p)
    now ← gets World.now
    save_named e user.id (some username) (link p (some username) now)
    pure (reply_with false (link p (some username) now user))

  abbrev pub sign_in : Identity → Option User → Action GoogleReply
  sign_in p none = create_google_user p
  sign_in p (some user) =
      if is_none (present user.username) then link_nameless p user else link_named p user

  unfoldable pub google_auth : Text → Action GoogleReply
  unfolding identify find_by_email create_google_user link_nameless link_named
  google_auth id_token = do
    p ← identify k id_token
    instead (do sign_in p (← find_by_email e p.email)) google_failed
