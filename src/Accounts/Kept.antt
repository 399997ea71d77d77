-- ===== src/Accounts/Kept.antt =====
-- What the calls of the account service keep, in any order.
use ubuy_backend.Base.{◌≡◌, some, List, All}
use ubuy_backend.Texts.{Text}
use ubuy_backend.Domain.{User}
use ubuy_backend.Platform.{Env}
use ubuy_backend.Platform.World.{World}
use ubuy_backend.Auth.Keys.{Keys}
use ubuy_backend.Accounts.Calls.{Call, run_all, run_all-AccountChanges}
use ubuy_backend.Accounts.Invariant.{
  IsCounted, HasUniqueEmails, IsSameAccount, account, AccountChanges-safe, AccountChanges-account,
}

module _ (e : Env) (k : Keys) where
  -- From a state where no address has two accounts and every count of failed logins is below five,
  -- any sequence of calls of the account service leads to such a state. The account of an address is
  -- still there, with its id and address, and is still verified if it was.
  pub run_all_safe :
      (cs : List Call) (w : World) (m : Text) (u : User)
      → All IsCounted w.users
      → HasUniqueEmails w.users
      → account m w.users ≡ some u
      → All IsCounted (run_all e k cs w).users
        × HasUniqueEmails (run_all e k cs w).users
        × ((v : User) × (account m (run_all e k cs w).users ≡ some v) × IsSameAccount u v)
  run_all_safe cs w m u counted unique found =
      let changes = run_all-AccountChanges e k cs w in
      let (a, b) = AccountChanges-safe w.users (run_all e k cs w).users changes counted unique in
      (a, b, AccountChanges-account m w.users (run_all e k cs w).users u changes found)
