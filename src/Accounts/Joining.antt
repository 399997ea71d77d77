-- ===== src/Accounts/Joining.antt =====
-- modules/auth/auth.service.ts: from `signup` by `verifyEmail` to `login`.
use ubuy_backend.Base.{
  ℕ, ◌+◌, ◌≤◌, ◌≡◌, refl, ◌∙◌, Bool, false, ◌||◌, none, some, List, [], ◌∷◌, ◌++◌, arith, first,
  first-append, eq_self,
}
use ubuy_backend.Texts.{Text, present, same_text_self}
use ubuy_backend.Domain.{UserId, User, Mail, MailKind}
use ubuy_backend.Platform.{Env}
use ubuy_backend.Platform.Calls.{guarded, send_mail}
use ubuy_backend.Platform.World.{World, after, ok, err, email_not_verified}
use ubuy_backend.Users.{
  has_email, has_username, has_user_id, clashes, find_by_email, create_user, save_user,
}
use ubuy_backend.Auth.Keys.{Keys}
use ubuy_backend.Auth.Codes.{code_of_draw, generate_verification_code, code_lifetime_ms}
use ubuy_backend.Auth.Register.{
  new_user, mark_verified, hash_password, mail_code, register, signup, verify_user, verify_email,
}
use ubuy_backend.Auth.Login.{claims_of, login, login_user}
use ubuy_backend.Accounts.Held.{IsHeld, find-IsHeld, update_one-IsHeld}
use ubuy_backend.Accounts.Lockout.{login_iff}
use ubuy_backend.Accounts.Recovery.{present_hash}

first-or :
    (p q : User → Bool) (c : List User)
    → first p c ≡ none
    → first q c ≡ none
    → first (λ u. p u || q u) c ≡ none
first-or p q [] h k = refl
first-or p q (u ∷ c) h k = ground (arith, first-or p q c)

module _ (e : Env) (k : Keys) where
  -- Nobody has the address, the username or the next id.
  pub record IsFresh (email username : Text) (w : World) : Type 0 where
    pub no_email : first (has_email email) w.users ≡ none
    pub no_username : first (has_username username) w.users ≡ none
    pub no_id : first (has_user_id (e.new_id w.issued)) w.users ≡ none

  -- The code of the next `signup`, its user and the mail.
  abbrev pub signup_code : World → Text
  signup_code w = code_of_draw k (w.draws + 1)

  abbrev pub signup_user : Text → Text → Text → World → User
  signup_user email password username w =
      new_user email username (k.hash w.draws password) (signup_code w) (w.now + code_lifetime_ms)
        w.now (e.new_id w.issued)

  abbrev pub signup_mail : Text → World → Mail
  signup_mail email w = record { kind = MailKind.verification; to = email; code = signup_code w }

  after_signup : Text → Text → Text → World → World
  after_signup email password username w = record w {
    users = e.users.create (signup_user email password username w) w.users;
    draws = w.draws + 1 + 1;
    issued = w.issued + 1;
    calls = w.calls + 1;
    mails = w.mails ++ signup_mail email w ∷ [];
  }

  no_clash :
      (email password username : Text) (w : World)
      → IsFresh email username w
      → e.users.find_one (clashes (signup_user email password username w)) w.users ≡ none
  no_clash email password username w h =
      e.users.find_one_lem _ w.users
      ∙ first-or (has_email email) (has_username username) w.users h.no_email h.no_username

  create_user_free :
      (d : UserId → User) (w : World)
      → e.users.find_one (clashes (d (e.new_id w.issued))) w.users ≡ none
      → create_user e d w ≡ (
        ok (d (e.new_id w.issued)),
        record w { users = e.users.create (d (e.new_id w.issued)) w.users; issued = w.issued + 1 },
      )
  unfolding create_user
  create_user_free d w free = rw free refl

  mail_code_up :
      (kind : MailKind) (to code : Text) (w : World)
      → e.outage w.calls ≡ false
      → mail_code e k kind to code w ≡ (
        ok tt,
        record w {
          calls = w.calls + 1;
          mails = w.mails ++ record { kind = kind; to = to; code = code } ∷ [];
        },
      )
  unfolding mail_code send_mail guarded
  mail_code_up kind to code w up = ground (arith, up)

  register_fresh :
      (email password username : Text) (w : World)
      → IsFresh email username w
      → e.outage w.calls ≡ false
      → register e k email password username w ≡ (ok tt, after_signup email password username w)
  unfolding register hash_password generate_verification_code after_signup
  register_fresh email password username w h up =
      after
        (create_user e (
          new_user email username (k.hash w.draws password) (signup_code w)
            (w.now + code_lifetime_ms) w.now))
        (λ _. mail_code e k MailKind.verification email (signup_code w))
        (record w { draws = w.draws + 1 + 1 })
        (create_user_free
          (new_user email username (k.hash w.draws password) (signup_code w)
            (w.now + code_lifetime_ms) w.now)
          (record w { draws = w.draws + 1 + 1 }) (no_clash email password username w h))
      ∙ mail_code_up MailKind.verification email (signup_code w)
          (record w {
            users = e.users.create (signup_user email password username w) w.users;
            draws = w.draws + 1 + 1;
            issued = w.issued + 1;
          })
          up

  signup_fresh :
      (email password username : Text) (w : World)
      → IsFresh email username w
      → e.outage w.calls ≡ false
      → signup e k email password username w ≡ (ok tt, after_signup email password username w)
  unfolding signup find_by_email
  signup_fresh email password username w h up =
      rw (e.users.find_one_lem (has_email email) w.users ∙ h.no_email)
        (register_fresh email password username w h up)

  after_signup-IsHeld :
      (email password username : Text) (w : World)
      → IsFresh email username w
      → IsHeld email
          (signup_user email password username w)
          (after_signup email password username w).users
  unfolding after_signup
  after_signup-IsHeld email password username w h = record {
    by_email =
        rw
          (
            e.users.create_lem,
            first-append (has_email email) w.users (signup_user email password username w ∷ []),
            h.no_email,
            same_text_self email,
          )
          refl;
    by_id =
        rw
          (
            e.users.create_lem,
            first-append (has_user_id (e.new_id w.issued)) w.users
                (signup_user email password username w ∷ []),
            h.no_id,
            eq_self (e.new_id w.issued),
          )
          refl;
  }

  login_unverified :
      (email password hashed : Text) (u : User) (w : World)
      → IsHeld email u w.users
      → present u.password ≡ some hashed
      → u.locked_until ≡ none
      → u.is_verified ≡ false
      → login e k email password w ≡ (err email_not_verified, w)
  unfolding login login_user find_by_email
  login_unverified email password hashed u w held has open_ unverified =
      rw (find-IsHeld e email u w.users held) (ground (arith, has, open_, unverified))

  after_verify : User → World → World
  after_verify u w = record w {
    users = e.users.update_one (has_user_id u.id) mark_verified w.users;
  }

  verify_email_right :
      (email code : Text) (expiry : ℕ) (u : User) (w : World)
      → IsHeld email u w.users
      → u.is_verified ≡ false
      → u.verification_code ≡ some code
      → u.verification_code_expiry ≡ some expiry
      → w.now ≤ expiry
      → verify_email e k email code w ≡ (ok tt, after_verify u w)
  unfolding verify_email verify_user find_by_email save_user after_verify
  verify_email_right email code expiry u w held unverified has until fresh =
      rw (find-IsHeld e email u w.users held)
        (ground (arith, unverified, has, until, same_text_self code))

  -- Where nobody has the address, the username or the next id and the mail goes out, `signup` answers
  -- and mails a code to the address. A login is refused until the address is verified. Within ten
  -- minutes the mailed code verifies it, and then a login with the password of `signup` answers with a
  -- token for the new account.
  pub signup-login :
      (email password username : Text) (w : World) (t : ℕ)
      → IsFresh email username w
      → e.outage w.calls ≡ false
      → t ≤ w.now + code_lifetime_ms
      → let (answer, w') = signup e k email password username w in
        let (verified, w'') = verify_email e k email (signup_code w) (record w' { now = t }) in
        (answer ≡ ok tt)
        × (w'.mails ≡ w.mails ++ signup_mail email w ∷ [])
        × (login e k email password w' ≡ (err email_not_verified, w'))
        × (verified ≡ ok tt)
        × ((login e k email password w'').0
            ≡ ok (record { sub = e.new_id w.issued; email = email }))
  unfolding after_signup after_verify
  signup-login email password username w t h up soon =
      let u = signup_user email password username w in
      let w' = after_signup email password username w in
      let held = after_signup-IsHeld email password username w h in
      let later = record w' { now = t } in
      let has = present_hash e k w.draws password in
      rw (signup_fresh email password username w h up) (
        rw
          (verify_email_right email (signup_code w) (w.now + code_lifetime_ms) u later held refl
            refl refl soon)
          (
            refl,
            refl,
            login_unverified email password (k.hash w.draws password) u w' held has refl refl,
            refl,
            (login_iff e k email password (after_verify u later) (claims_of u)).1 (
              mark_verified u,
              (update_one-IsHeld e email u mark_verified later.users
                  (record { same_id = λ u. refl; same_email = λ u. refl }) held).by_email,
              record {
                hashed = k.hash w.draws password;
                has_password = has;
                unlocked = refl;
                verified = refl;
                compares = k.compare-hash w.draws password;
              },
              refl,
            ),
          ))
