-- ===== src/Accounts/Recovery.antt =====
-- modules/auth/auth.service.ts, `resetPassword`: the new password works, the code does not any more.
use ubuy_backend.Base.{ℕ, ◌+◌, ◌≡◌, refl, true, false, none, some, arith}
use ubuy_backend.Texts.{Text, present, is_text}
use ubuy_backend.Domain.{User}
use ubuy_backend.Platform.{Env}
use ubuy_backend.Platform.World.{World, ok, err, invalid_code}
use ubuy_backend.Users.{has_user_id, find_by_email, save_user}
use ubuy_backend.Auth.Keys.{Keys}
use ubuy_backend.Auth.Register.{hash_password}
use ubuy_backend.Auth.Reset.{
  has_expired, set_password, check_reset_code, reset_user, reset_password,
}
use ubuy_backend.Auth.Login.{claims_of, is_locked, login}
use ubuy_backend.Accounts.Held.{IsHeld, find-IsHeld, update_one-IsHeld}
use ubuy_backend.Accounts.Lockout.{login_iff}

module _ (e : Env) (k : Keys) where
  -- What a reset leaves.
  after_reset : User → Text → World → World
  after_reset u password w = record w {
    users = e.users.update_one (has_user_id u.id) (set_password (k.hash w.draws password)) w.users;
    draws = w.draws + 1;
  }

  reset_password_right :
      (email code password : Text) (u : User) (w : World)
      → IsHeld email u w.users
      → is_text u.password_reset_code code ≡ true
      → has_expired u.password_reset_code_expiry w.now ≡ false
      → reset_password e k email code password w ≡ (ok tt, after_reset u password w)
  unfolding reset_password reset_user check_reset_code hash_password find_by_email save_user
      after_reset
  reset_password_right email code password u w held right fresh =
      rw (find-IsHeld e email u w.users held) (ground (arith, right, fresh))

  reset_password_used :
      (email code password : Text) (u : User) (w : World)
      → IsHeld email u w.users
      → u.password_reset_code ≡ none
      → reset_password e k email code password w ≡ (err invalid_code, w)
  unfolding reset_password reset_user check_reset_code find_by_email
  reset_password_used email code password u w held gone =
      rw (find-IsHeld e email u w.users held) (ground (arith, gone))

  -- The account after the reset, in the state that it leaves.
  after_reset-IsHeld :
      (email password : Text) (u : User) (w : World)
      → IsHeld email u w.users
      → IsHeld email (set_password (k.hash w.draws password) u) (after_reset u password w).users
  unfolding after_reset
  after_reset-IsHeld email password u w held =
      update_one-IsHeld e email u (set_password (k.hash w.draws password)) w.users
        (record { same_id = λ u. refl; same_email = λ u. refl }) held

  pub present_hash : (n : ℕ) (p : Text) → present (some (k.hash n p)) ≡ some (k.hash n p)
  present_hash n p = let (x, t, h) = k.hash_starts n p in rw h refl

  -- A password reset with the code of the account, in time, answers. The verified account that is not
  -- locked then logs in with the new password. The same code tried again, at any time at which the
  -- state is still the one that the reset left, is refused and changes nothing.
  pub reset_password-login :
      (email code password again : Text) (t : ℕ) (u : User) (w : World)
      → IsHeld email u w.users
      → is_text u.password_reset_code code ≡ true
      → has_expired u.password_reset_code_expiry w.now ≡ false
      → u.is_verified ≡ true
      → is_locked u.locked_until w.now ≡ false
      → let (answer, w') = reset_password e k email code password w in
        (answer ≡ ok tt)
        × ((login e k email password w').0 ≡ ok (claims_of u))
        × (reset_password e k email code again (record w' { now = t })
            ≡ (err invalid_code, record w' { now = t }))
  unfolding after_reset
  reset_password-login email code password again t u w held right fresh verified open_ =
      rw (reset_password_right email code password u w held right fresh) (
        refl,
        (login_iff e k email password (after_reset u password w) (claims_of u)).1 (
          set_password (k.hash w.draws password) u,
          (after_reset-IsHeld email password u w held).by_email,
          record {
            hashed = k.hash w.draws password;
            has_password = present_hash w.draws password;
            unlocked = open_;
            verified = verified;
            compares = k.compare-hash w.draws password;
          },
          refl,
        ),
        reset_password_used email code again (set_password (k.hash w.draws password) u)
            (record (after_reset u password w) { now = t })
            (still t (after_reset-IsHeld email password u w held)) refl,
      )
    where
      still :
          (t : ℕ)
          → IsHeld email (set_password (k.hash w.draws password) u) (after_reset u password w).users
          → IsHeld email
              (set_password (k.hash w.draws password) u)
              (record (after_reset u password w) { now = t }).users
      still t h = h
