-- ===== src/Accounts/Linked.antt =====
-- modules/auth/auth.service.ts, `googleAuth` at an address that has an account.
use ubuy_backend.Base.{◌≡◌, refl, ◌∙◌, true, false, some, arith, is_none}
use ubuy_backend.Texts.{Text, present}
use ubuy_backend.Domain.{User}
use ubuy_backend.Platform.{Env}
use ubuy_backend.Platform.World.{World, instead, google_failed, after, ok}
use ubuy_backend.Users.{has_email, has_user_id, find_by_email, save_user}
use ubuy_backend.Auth.Keys.{Keys}
use ubuy_backend.Auth.Login.{claims_of, is_locked, login}
use ubuy_backend.Auth.Google.{
  Identity, identify, link, reply_with, link_named, sign_in, google_auth,
}
use ubuy_backend.Accounts.Held.{IsHeld, find-IsHeld, update_one-IsHeld}
use ubuy_backend.Accounts.Lockout.{login_iff}

module _ (e : Env) (k : Keys) where
  -- The account that `googleAuth` leaves, and the state.
  abbrev pub linked : Identity → User → World → User
  linked p u w = link p u.username w.now u

  after_link : Identity → User → World → World
  after_link p u w = record w {
    users = e.users.update_one (has_user_id u.id) (link p u.username w.now) w.users;
  }

  signed_in :
      (p : Identity) (u : User) (w : World)
      → IsHeld p.email u w.users
      → is_none (present u.username) ≡ false
      → instead (sign_in e k p (e.users.find_one (has_email p.email) w.users)) google_failed w
        ≡ (ok (reply_with false (linked p u w)), after_link p u w)
  unfolding link_named save_user after_link
  signed_in p u w held named = rw (find-IsHeld e p.email u w.users held) (ground (arith, named))

  google_auth_named :
      (token : Text) (p : Identity) (u : User) (w : World)
      → identify k token w ≡ (ok p, w)
      → IsHeld p.email u w.users
      → is_none (present u.username) ≡ false
      → google_auth e k token w ≡ (ok (reply_with false (linked p u w)), after_link p u w)
  unfolding google_auth link_named find_by_email save_user after_link
  google_auth_named token p u w known held named =
      after (identify k token)
        (λ p.
          instead (λ w. sign_in e k p (e.users.find_one (has_email p.email) w.users) w)
            google_failed)
        w known
      ∙ signed_in p u w held named

  -- A Google token whose address has an account with a username signs in to that account, marks it
  -- verified, and leaves its password: whoever knows the password that was set before, verified or
  -- not, logs in to the account unless it is locked.
  pub google_auth-login :
      (token password hashed : Text) (p : Identity) (u : User) (w : World)
      → identify k token w ≡ (ok p, w)
      → IsHeld p.email u w.users
      → is_none (present u.username) ≡ false
      → present u.password ≡ some hashed
      → k.compare password hashed ≡ true
      → is_locked u.locked_until w.now ≡ false
      → let (answer, w') = google_auth e k token w in
        (answer ≡ ok (reply_with false (linked p u w)))
        × ((login e k p.email password w').0 ≡ ok (claims_of u))
  unfolding after_link
  google_auth-login token password hashed p u w known held named has right open_ =
      rw (google_auth_named token p u w known held named) (
        refl,
        (login_iff e k p.email password (after_link p u w) (claims_of u)).1 (
          linked p u w,
          (update_one-IsHeld e p.email u (link p u.username w.now) w.users
              (record { same_id = λ u. ground arith; same_email = λ u. ground arith })
              held).by_email,
          record {
            hashed = hashed;
            has_password = ground arith;
            unlocked = ground arith;
            verified = ground arith;
            compares = right;
          },
          ground arith,
        ),
      )
