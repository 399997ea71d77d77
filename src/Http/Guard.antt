-- ===== src/Http/Guard.antt =====
-- modules/auth/guards/jwt-auth.guard.ts with `JwtStrategy.validate`, and the decorator of
-- common/decorators/current-user.decorator.ts. A request has a token if passport-jwt accepts the one
-- of its header, and the token is its payload.
use ubuy_backend.Base.{
  ◌≡◌, inl, inr, refl, Option, none, some, arith, Option-cases, Bool-cases, ⊤, if◌then◌else◌,
}
use ubuy_backend.Domain.{UserId, User}
use ubuy_backend.Platform.{Env}
use ubuy_backend.Platform.World.{World, Action, Result, ok, err, unauthorized, pure, throw, ◌>>=◌}
use ubuy_backend.Users.{find_by_id, has_user_id}
use ubuy_backend.Auth.Login.{Claims}
use ubuy_backend.Auth.Profile.{validate}

abbrev pub Token : Type 0
Token = Option Claims

module _ (e : Env) where
  unfoldable pub authenticate : Token → Action Claims
  unfolding validate
  authenticate none = throw unauthorized
  authenticate (some payload) = validate e payload

  -- A route with `@UseGuards(JwtAuthGuard)`: the handler gets the user of the request.
  unfoldable pub use_guard : {A : Type 0} → Token → (Option Claims → Action A) → Action A
  unfolding authenticate
  use_guard token handler = do user ← authenticate token; handler (some user)

-- `if (!user) { throw new UnauthorizedException(…) }`
abbrev pub user_id_of : Option Claims → Action UserId
user_id_of none = throw unauthorized
user_id_of (some user) = pure user.sub

-- Whether a method answered, without its answer.
abbrev pub outcome : {A : Type 0} → Result A → Result ⊤
outcome (ok a) = ok tt
outcome (err x) = err x

abbrev pub answers : {A : Type 0} → Action A → Action ⊤
answers m w = let (r, w') = m w in (outcome r, w')

module _ (e : Env) (token : Token) (w : World) where
  -- The account of the token's payload, if it is there and verified.
  unfoldable pub verified_user : Option User
  verified_user = elim token [
    | none ↦ none
    | some payload ↦ elim (e.users.find_one (has_user_id payload.sub) w.users) [
      | none ↦ none
      | some u ↦ if u.is_verified then some u else none
    ]
  ]

-- For the account that was found, or refused.
unfoldable pub for_user : {A : Type 0} → Option User → (UserId → Action A) → Action A
for_user none f w = (err unauthorized, w)
for_user (some u) f w = f u.id w

module _ (e : Env) where
  -- The guard lets a verified account through and nobody else, and changes nothing.
  pub use_guard_lem :
      {A : Type 0} (token : Token) (f : UserId → Action A) (w : World)
      → use_guard e token (λ user. user_id_of user >>= f) w ≡ for_user (verified_user e token w) f w
  unfolding use_guard authenticate validate find_by_id verified_user for_user
  use_guard_lem none f w = refl
  use_guard_lem (some payload) f w =
      elim (Option-cases (e.users.find_one (has_user_id payload.sub) w.users)) [
        | inl missing ↦ ground (arith, missing)
        | inr (u, found) ↦ elim (Bool-cases u.is_verified) [
          | inl y ↦ ground (arith, found, y)
          | inr n ↦ ground (arith, found, n)
        ]
      ]
