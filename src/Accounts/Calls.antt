-- ===== src/Accounts/Calls.antt =====
-- The calls of `AuthService` in any order, with any arguments, and the passing of time.
use ubuy_backend.Base.{ℕ, List, [], ◌∷◌}
use ubuy_backend.Texts.{Text}
use ubuy_backend.Domain.{UserId}
use ubuy_backend.Platform.{Env}
use ubuy_backend.Platform.World.{World}
use ubuy_backend.Auth.Keys.{Keys}
use ubuy_backend.Auth.Register.{signup, verify_email}
use ubuy_backend.Auth.Reset.{Purpose, resend_code, forgot_password, reset_password}
use ubuy_backend.Auth.Login.{login}
use ubuy_backend.Auth.Google.{google_auth}
use ubuy_backend.Auth.Profile.{ProfileChange, update_profile}
use ubuy_backend.Accounts.{AccountChanges, here}
use ubuy_backend.Accounts.Methods.{chain}
use ubuy_backend.Accounts.Signing.{
  signup-Follows, verify_email-Follows, resend_code-Follows, forgot_password-Follows,
  reset_password-Follows, login-Follows,
}
use ubuy_backend.Accounts.Google.{google_auth-Follows, update_profile-Follows}

pub data Call : Type 0 where
  signs_up : (email password username : Text) → Call
  verifies : (email code : Text) → Call
  asks_again : (email : Text) → Purpose → Call
  forgets : (email : Text) → Call
  resets : (email code password : Text) → Call
  logs_in : (email password : Text) → Call
  comes_from_google : (id_token : Text) → Call
  changes_profile : UserId → ProfileChange → Call
  waits_until : ℕ → Call

module _ (e : Env) (k : Keys) where
  -- The state after one call, whether it answers or throws.
  unfoldable pub run : Call → World → World
  run (signs_up email password username) w = (signup e k email password username w).1
  run (verifies email code) w = (verify_email e k email code w).1
  run (asks_again email p) w = (resend_code e k email p w).1
  run (forgets email) w = (forgot_password e k email w).1
  run (resets email code password) w = (reset_password e k email code password w).1
  run (logs_in email password) w = (login e k email password w).1
  run (comes_from_google t) w = (google_auth e k t w).1
  run (changes_profile i body) w = (update_profile e i body w).1
  run (waits_until t) w = record w { now = t }

  unfoldable pub run_all : List Call → World → World
  unfolding run
  run_all [] w = w
  run_all (c ∷ cs) w = run_all cs (run c w)

  run-AccountChanges : (c : Call) (w : World) → AccountChanges w.users (run c w).users
  unfolding run
  run-AccountChanges (signs_up email password username) w =
      signup-Follows e k email password username w
  run-AccountChanges (verifies email code) w = verify_email-Follows e k email code w
  run-AccountChanges (asks_again email p) w = resend_code-Follows e k email p w
  run-AccountChanges (forgets email) w = forgot_password-Follows e k email w
  run-AccountChanges (resets email code password) w =
      reset_password-Follows e k email code password w
  run-AccountChanges (logs_in email password) w = login-Follows e k email password w
  run-AccountChanges (comes_from_google t) w = google_auth-Follows e k t w
  run-AccountChanges (changes_profile i body) w = update_profile-Follows e k i body w
  run-AccountChanges (waits_until t) w = here

  -- Any sequence of calls of the account service, refused ones and failures of the mail server
  -- included, changes the user collection only by changes that the specification of accounts allows.
  pub run_all-AccountChanges :
      (cs : List Call) (w : World) → AccountChanges w.users (run_all cs w).users
  unfolding run_all
  run_all-AccountChanges [] w = here
  run_all-AccountChanges (c ∷ cs) w =
      chain (run-AccountChanges c w) (run_all-AccountChanges cs (run c w))
