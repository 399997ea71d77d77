-- ===== src/Accounts.antt =====
-- What a component may do to the user collection: the abstract specification that the methods of
-- `AuthService` implement, as a step relation. It says nothing of codes, mails or tokens.
pub mod Methods
pub mod Signing
pub mod Google
pub mod Calls
pub mod Invariant
pub mod Kept
pub mod Held
pub mod Lockout
pub mod Recovery
pub mod Joining
pub mod Linked
pub mod Names
pub mod Digits
use ubuy_backend.Base.{ℕ, ◌≡◌, ◌<◌, Bool, true, none, List, [], ◌∷◌, ◌++◌, first, modify_first}
use ubuy_backend.Domain.{User}
use ubuy_backend.Users.{clashes}
use ubuy_backend.Auth.Login.{max_failed_login_attempts}

-- An update that keeps what identifies an account, keeps it verified, and keeps the count of failed
-- logins below the limit.
pub record IsEdit (f : User → User) : Type 0 where
  pub same_id : (u : User) → (f u).id ≡ u.id
  pub same_email : (u : User) → (f u).email ≡ u.email
  pub stays_verified : (u : User) → u.is_verified ≡ true → (f u).is_verified ≡ true
  pub below :
      (u : User)
      → u.failed_login_attempts < max_failed_login_attempts
      → (f u).failed_login_attempts < max_failed_login_attempts

pub data AccountChange (c c' : List User) : Type 0 where
  edit :
      (p : User → Bool) (f : User → User) → IsEdit f → c' ≡ modify_first p f c → AccountChange c c'
  add :
      (u : User)
      → first (clashes u) c ≡ none
      → u.failed_login_attempts ≡ 0
      → c' ≡ c ++ u ∷ []
      → AccountChange c c'

pub data AccountChanges (c : List User) : List User → Type 0 where
  here : AccountChanges c c
  next : {c' c'' : List User} → AccountChanges c c' → AccountChange c' c'' → AccountChanges c c''
