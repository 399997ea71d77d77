-- ===== src/Auth/Profile.antt =====
-- modules/auth/auth.service.ts: `getProfileById`, `updateProfile` and `getPublicProfile`, and the
-- check of a token's user in modules/auth/strategies/jwt.strategy.ts.
use ubuy_backend.Base.{
  Bool, false, not, Option, none, some, [], ◌==◌, keep, get_or_else, if◌then◌else◌, ⊤,
}
use ubuy_backend.Texts.{Text, is_text, present, codes, or_text}
use ubuy_backend.Domain.{UserId, User}
use ubuy_backend.Platform.{Env}
use ubuy_backend.Platform.World.{
  Action, user_not_found, username_taken, update_failed, unauthorized, pure, skip, or_throw,
  throw_if, ◌>>=◌, ◌>>◌,
}
use ubuy_backend.Users.{find_by_id, find_by_username, save_named}
use ubuy_backend.Auctions.Lifecycle.{bid_stats, BidStats}
use ubuy_backend.Auth.Keys.{Keys}
use ubuy_backend.Auth.Login.{Claims, claims_of}

-- `UpdateProfileDto`
pub record ProfileChange : Type 0 where
  pub username : Option Text
  pub name : Option Text
  pub image : Option Text

-- `a ?? b`
abbrev pub or_else : Option Text → Option Text → Option Text
or_else none b = b
or_else (some a) b = some a

abbrev pub change_profile : ProfileChange → User → User
change_profile body u = record u {
  username = or_else body.username u.username;
  name = or_else body.name u.name;
  image = or_else body.image u.image;
}

-- `body.username && body.username !== user.username`: the name that is asked for and new.
abbrev pub new_name : Option Text → Option Text → Option Text
new_name none old = none
new_name (some name) old = if is_text old name then none else some name

-- `existingUser && String(existingUser._id) !== userId`
abbrev pub is_other : UserId → Option User → Bool
is_other i none = false
is_other i (some u) = not (u.id == i)

module _ (e : Env) where
  unfoldable pub get_profile_by_id : UserId → Action User
  unfolding find_by_id
  get_profile_by_id i = do or_throw (← find_by_id e i) user_not_found

  abbrev pub check_name : UserId → Option Text → Action ⊤
  check_name i none = skip
  check_name i (some name) = do
    existing ← find_by_username e name
    throw_if (is_other i existing) username_taken

  unfoldable pub update_profile : UserId → ProfileChange → Action User
  unfolding find_by_id find_by_username save_named
  update_profile i body = do
    user ← or_throw (← find_by_id e i) user_not_found
    check_name i (new_name (present body.username) user.username)
    save_named e i (or_else body.username user.username) (change_profile body)
    or_throw (← find_by_id e i) update_failed

  -- `JwtStrategy.validate`
  unfoldable pub validate : Claims → Action Claims
  unfolding find_by_id
  validate payload = do
    user ← or_throw (← find_by_id e payload.sub) unauthorized
    throw_if (not user.is_verified) unauthorized
    pure (claims_of user)

-- What `Types.ObjectId.isValid` makes of the identifier: an id, or else a username.
pub data Identifier : Type 0 where
  user_id : UserId → Identifier
  username : Text → Identifier

pub record PublicProfile : Type 0 where
  pub id : UserId
  pub username : Text
  pub profile_image : Option Text
  pub stats : BidStats

module _ (k : Keys) where
  abbrev pub trimmed : Option Text → Text
  trimmed none = []
  trimmed (some name) = k.trim name

  -- `user.name?.trim() || user.username || 'Unnamed User'`
  abbrev pub profile_name : User → Text
  profile_name u =
      or_text (trimmed u.name) (or_text (get_or_else u.username []) (codes "Unnamed User"))

module _ (e : Env) (k : Keys) where
  abbrev pub find_identified : Identifier → Action (Option User)
  find_identified (user_id i) = find_by_id e i
  find_identified (username name) = find_by_username e name

  -- The answer; the printed date of the account is left out.
  abbrev pub public_profile : User → BidStats → PublicProfile
  public_profile user stats = record {
    id = user.id;
    username = profile_name k user;
    profile_image = user.image;
    stats = stats;
  }

  unfoldable pub get_public_profile : Identifier → Action PublicProfile
  unfolding find_by_id find_by_username bid_stats
  get_public_profile who = do
    user ← or_throw (← find_identified who) user_not_found
    stats ← bid_stats e user.id (keep e.is_valid_id user.bidded_auctions)
    pure (public_profile user stats)
