-- ===== src/Accounts/Signing.antt =====
-- modules/auth/auth.service.ts: the methods of Register, Reset and Login as changes of accounts.
use ubuy_backend.Base.{
  ℕ, List, ◌≡◌, refl, ◌⊎◌, ◌∙◌, ◌+◌, Bool, true, false, Option, none, some, arith, Option-cases,
  inl, inr,
}
use ubuy_backend.Texts.{Text}
use ubuy_backend.Domain.{UserId, User, MailKind}
use ubuy_backend.Platform.{Env}
use ubuy_backend.Platform.Calls.{guarded, send_mail}
use ubuy_backend.Platform.World.{World, Error, or_throw, throw_if}
use ubuy_backend.Users.{has_email, create_user, find_by_email, has_user_id, save_user}
use ubuy_backend.Auth.Keys.{Keys}
use ubuy_backend.Auth.Codes.{code_of_draw, code_lifetime_ms, generate_verification_code}
use ubuy_backend.Auth.Register.{
  new_user, hash_password, mail_code, register, signup, verify_user, verify_email,
  resend_verification, mark_verified, set_verification,
}
use ubuy_backend.Auth.Reset.{
  Purpose, email_verification, password_reset, send_reset_code, forgot_password, resend_for,
  resend_code, set_reset, set_password, check_reset_code, reset_user, reset_password,
}
use ubuy_backend.Auth.Login.{
  count_failure, clear_failures, login, login_user, refuse_login, accept_login,
}
use ubuy_backend.Accounts.{IsEdit, AccountChanges, edit, here, next}
use ubuy_backend.Accounts.Methods.{
  Follows, bind-Follows, create_user-Follows, mail_code-Follows, unchanged,
}

pub throw_if-Follows : (b : Bool) (x : Error) → Follows (throw_if b x)
throw_if-Follows true x w = unchanged refl
throw_if-Follows false x w = unchanged refl

pub or_throw-Follows : {A : Type 0} (o : Option A) (x : Error) → Follows (or_throw o x)
or_throw-Follows none x w = unchanged refl
or_throw-Follows (some a) x w = unchanged refl

-- The updates that the methods save.
mark_verified-IsEdit : IsEdit mark_verified
mark_verified-IsEdit = record {
  same_id = λ u. refl;
  same_email = λ u. refl;
  stays_verified = λ u h. refl;
  below = λ u h. h;
}

set_verification-IsEdit : (code : Text) (t : ℕ) → IsEdit (set_verification code t)
set_verification-IsEdit code t = record {
  same_id = λ u. refl;
  same_email = λ u. refl;
  stays_verified = λ u h. h;
  below = λ u h. h;
}

set_reset-IsEdit : (code : Text) (t : ℕ) → IsEdit (set_reset code t)
set_reset-IsEdit code t = record {
  same_id = λ u. refl;
  same_email = λ u. refl;
  stays_verified = λ u h. h;
  below = λ u h. h;
}

set_password-IsEdit : (hashed : Text) → IsEdit (set_password hashed)
set_password-IsEdit hashed = record {
  same_id = λ u. refl;
  same_email = λ u. refl;
  stays_verified = λ u h. h;
  below = λ u h. h;
}

count_failure-IsEdit : (now : ℕ) → IsEdit (count_failure now)
count_failure-IsEdit now = record {
  same_id = λ u. ground arith;
  same_email = λ u. ground arith;
  stays_verified = λ u h. ground arith;
  below = λ u h. ground arith;
}

clear_failures-IsEdit : IsEdit clear_failures
clear_failures-IsEdit = record {
  same_id = λ u. refl;
  same_email = λ u. refl;
  stays_verified = λ u h. h;
  below = λ u h. ground arith;
}

-- What a method that saves one user may make of the collection.
abbrev Saves : Env → UserId → (User → User) → List User → List User → Type 0
Saves e i f c c' = (c' ≡ c) ⊎ (c' ≡ e.users.update_one (has_user_id i) f c)

module _ (e : Env) (k : Keys) where
  saved :
      (i : UserId) {f : User → User} {c c' : List User}
      → IsEdit f
      → Saves e i f c c'
      → AccountChanges c c'
  saved i h (inl same) = unchanged same
  saved i {f} {c} h (inr eq) =
      next here (edit (has_user_id i) f h (eq ∙ e.users.update_one_lem _ f c))

  verify_user-Saves :
      (u : User) (code : Text) (w : World)
      → Saves e u.id mark_verified w.users (verify_user e k u code w).1.users
  unfolding verify_user save_user
  verify_user-Saves u code w = ground arith

  resend_verification-Saves :
      (email : Text) (u : User) (w : World)
      → Saves e u.id
          (set_verification (code_of_draw k w.draws) (w.now + code_lifetime_ms))
          w.users
          (resend_verification e k email u w).1.users
  unfolding resend_verification save_user generate_verification_code mail_code send_mail guarded
  resend_verification-Saves email u w = ground arith

  login_user-Saves :
      (u : User) (password : Text) (w : World)
      → Saves e u.id clear_failures w.users (login_user e k u password w).1.users
        ⊎ Saves e u.id (count_failure w.now) w.users (login_user e k u password w).1.users
  unfolding login_user refuse_login accept_login save_user
  login_user-Saves u password w = ground arith

  send_reset_code-Saves :
      (email : Text) (u : User) (w : World)
      → Saves e u.id
          (set_reset (code_of_draw k w.draws) (w.now + code_lifetime_ms))
          w.users
          (send_reset_code e k email u w).1.users
  unfolding send_reset_code save_user generate_verification_code mail_code send_mail guarded
  send_reset_code-Saves email u w = ground arith

  reset_user-Saves :
      (u : User) (code password : Text) (w : World)
      → Saves e u.id
          (set_password (k.hash w.draws password))
          w.users
          (reset_user e k u code password w).1.users
  unfolding reset_user check_reset_code save_user hash_password
  reset_user-Saves u code password w = ground arith

  register-Follows :
      (email password username : Text) → Follows (register e k email password username)
  unfolding register hash_password generate_verification_code
  register-Follows email password username w =
      bind-Follows
        (create_user e (
          new_user email username (k.hash w.draws password) (code_of_draw k (w.draws + 1))
            (w.now + code_lifetime_ms) w.now))
        (λ _. mail_code e k MailKind.verification email (code_of_draw k (w.draws + 1)))
        (create_user-Follows e
          (new_user email username (k.hash w.draws password) (code_of_draw k (w.draws + 1))
            (w.now + code_lifetime_ms) w.now)
          (λ i. refl))
        (λ _. mail_code-Follows e k MailKind.verification email _)
        (record w { draws = w.draws + 1 + 1 })

  -- A method that first looks a user up.
  abbrev found_by : Text → World → Option User
  found_by email w = e.users.find_one (has_email email) w.users

  pub signup-Follows :
      (email password username : Text) → Follows (signup e k email password username)
  unfolding signup find_by_email
  signup-Follows email password username w = elim (Option-cases (found_by email w)) [
    | inl free ↦ rw free (register-Follows email password username w)
    | inr (u, taken) ↦ rw taken here
  ]

  pub verify_email-Follows : (email code : Text) → Follows (verify_email e k email code)
  unfolding verify_email find_by_email
  verify_email-Follows email code w = elim (Option-cases (found_by email w)) [
    | inl missing ↦ rw missing here
    | inr (u, found) ↦ rw found (saved u.id mark_verified-IsEdit (verify_user-Saves u code w))
  ]

  resend_for-Follows : (p : Purpose) (email : Text) (u : User) → Follows (resend_for e k p email u)
  resend_for-Follows email_verification email u w =
      saved u.id (set_verification-IsEdit _ _) (resend_verification-Saves email u w)
  resend_for-Follows password_reset email u w =
      saved u.id (set_reset-IsEdit _ _) (send_reset_code-Saves email u w)

  pub resend_code-Follows : (email : Text) (p : Purpose) → Follows (resend_code e k email p)
  unfolding resend_code find_by_email
  resend_code-Follows email p w = elim (Option-cases (found_by email w)) [
    | inl missing ↦ rw missing here
    | inr (u, found) ↦ rw found (resend_for-Follows p email u w)
  ]

  pub forgot_password-Follows : (email : Text) → Follows (forgot_password e k email)
  unfolding forgot_password find_by_email
  forgot_password-Follows email w = elim (Option-cases (found_by email w)) [
    | inl missing ↦ rw missing here
    | inr (u, found) ↦ rw found (resend_for-Follows password_reset email u w)
  ]

  pub reset_password-Follows :
      (email code password : Text) → Follows (reset_password e k email code password)
  unfolding reset_password find_by_email
  reset_password-Follows email code password w = elim (Option-cases (found_by email w)) [
    | inl missing ↦ rw missing here
    | inr (u, found) ↦
        rw found (saved u.id (set_password-IsEdit _) (reset_user-Saves u code password w))
  ]

  pub login-Follows : (email password : Text) → Follows (login e k email password)
  unfolding login find_by_email
  login-Follows email password w = elim (Option-cases (found_by email w)) [
    | inl missing ↦ rw missing here
    | inr (u, found) ↦ rw found (elim (login_user-Saves u password w) [
      | inl cleared ↦ saved u.id clear_failures-IsEdit cleared
      | inr counted ↦ saved u.id (count_failure-IsEdit w.now) counted
    ])
  ]
