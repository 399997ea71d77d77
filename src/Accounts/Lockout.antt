-- ===== src/Accounts/Lockout.antt =====
-- modules/auth/auth.service.ts, `login`: when it answers, and the lock after wrong passwords.
use ubuy_backend.Base.{
  ℕ, ◌+◌, ◌≡◌, ◌<◌, refl, ◌∙◌, ap, ◌↔◌, true, false, none, some, List, [], ◌∷◌, length, arith, All,
  inl, inr, Option-cases, Bool-cases, subst, is_some,
}
use ubuy_backend.Texts.{Text, present}
use ubuy_backend.Domain.{User}
use ubuy_backend.Platform.{Env}
use ubuy_backend.Platform.World.{World, Result, ok, err, invalid_credentials, account_locked}
use ubuy_backend.Users.{has_email, has_user_id, find_by_email, save_user}
use ubuy_backend.Auth.Keys.{Keys}
use ubuy_backend.Auth.Login.{
  Claims, claims_of, is_locked, count_failure, login, login_user, refuse_login, accept_login,
  login_lock_window_ms, max_failed_login_attempts,
}
use ubuy_backend.Accounts.Invariant.{account}
use ubuy_backend.Accounts.Held.{IsHeld, KeepsKeys, find-IsHeld, update_one-IsHeld}

count_failure-KeepsKeys : (now : ℕ) → KeepsKeys (count_failure now)
count_failure-KeepsKeys now = record { same_id = λ u. ground arith; same_email = λ u. ground arith }

module _ (k : Keys) where
  -- What `login` asks of an account and a password.
  pub record IsRight (u : User) (password : Text) (now : ℕ) : Type 0 where
    pub hashed : Text
    pub has_password : present u.password ≡ some hashed
    pub unlocked : is_locked u.locked_until now ≡ false
    pub verified : u.is_verified ≡ true
    pub compares : k.compare password hashed ≡ true

  -- A password that the stored hash does not fit.
  abbrev pub IsWrong : User → Text → Type 0
  IsWrong u p = (hashed : Text) × (present u.password ≡ some hashed) × (k.compare p hashed ≡ false)

module _ (e : Env) (k : Keys) where
  login_user_right :
      (u : User) (password : Text) (w : World)
      → IsRight k u password w.now
      → (login_user e k u password w).0 ≡ ok (claims_of u)
  unfolding login_user accept_login save_user
  login_user_right u password w h =
      ground (arith, h.has_password, h.unlocked, h.verified, h.compares)

  login_user_answers :
      (u : User) (password : Text) (w : World) (c : Claims)
      → (login_user e k u password w).0 ≡ ok c
      → IsRight k u password w.now × (c ≡ claims_of u)
  unfolding login_user accept_login refuse_login save_user
  login_user_answers u password w c h = elim (Option-cases (present u.password)) [
    | inl none_ ↦ absurd (ground arith)
    | inr (hashed, some_) ↦ elim (Bool-cases (is_locked u.locked_until w.now)) [
      | inl locked ↦ absurd (ground arith)
      | inr unlocked ↦ elim (Bool-cases u.is_verified) [
        | inr unverified ↦ absurd (ground arith)
        | inl verified ↦ elim (Bool-cases (k.compare password hashed)) [
          | inr wrong ↦ absurd (ground arith)
          | inl right ↦ (
            record {
              hashed = hashed;
              has_password = some_;
              unlocked = unlocked;
              verified = verified;
              compares = right;
            },
            ground arith,
          )
        ]
      ]
    ]
  ]

  -- `login` answers exactly where the address has an account with a password, the account is not
  -- locked, its address is verified and the password compares with the stored hash. The token is
  -- for that account.
  pub login_iff :
      (email password : Text) (w : World) (c : Claims)
      → ((login e k email password w).0 ≡ ok c) ↔ (
          (u : User) × (account email w.users ≡ some u)
          × IsRight k u password w.now
          × (c ≡ claims_of u))
  unfolding login find_by_email
  login_iff email password w c = elim (Option-cases (account email w.users)) [
    | inl missing ↦ (
      λ h. absurd (refused (e.users.find_one_lem (has_email email) w.users ∙ missing) h),
      λ (u, found, _, _). absurd (cc),
    )
    | inr (u, found) ↦ (
      λ h.
          let (right, same) =
            login_user_answers u password w c
              (rw (e.users.find_one_lem (has_email email) w.users ∙ found) at h) in
          (u, found, right, same),
      λ (v, there, right, same).
          rw (e.users.find_one_lem (has_email email) w.users ∙ there, same)
            (login_user_right v password w right),
    )
  ]
    where
      refused :
          e.users.find_one (has_email email) w.users ≡ none
          → (login e k email password w).0 ≡ ok c
          → ⊥
      refused missing h = ground arith

  -- The state after logins that may be refused.
  unfoldable pub try_logins : Text → List Text → World → World
  try_logins email [] w = w
  try_logins email (p ∷ ps) w = try_logins email ps (login e k email p w).1

  wrong_login :
      (email p : Text) (u : User) (w : World)
      → IsHeld email u w.users
      → IsWrong k u p
      → is_locked u.locked_until w.now ≡ false
      → u.is_verified ≡ true
      → login e k email p w ≡ (
        err invalid_credentials,
        record w { users = e.users.update_one (has_user_id u.id) (count_failure w.now) w.users },
      )
  unfolding login login_user refuse_login find_by_email save_user
  wrong_login email p u w held (hashed, has, wrong) open_ verified =
      rw (find-IsHeld e email u w.users held) (ground (arith, has, wrong, open_, verified))

  -- The account once it is locked.
  abbrev pub lock_out : ℕ → User → User
  lock_out now u = record u {
    failed_login_attempts = 0;
    locked_until = some (now + login_lock_window_ms);
  }

  after_wrong : User → World → World
  after_wrong u w = record w {
    users = e.users.update_one (has_user_id u.id) (count_failure w.now) w.users;
  }

  try_logins_wrong :
      (email p : Text) (ps : List Text) (u : User) (w : World)
      → IsHeld email u w.users
      → IsWrong k u p
      → is_locked u.locked_until w.now ≡ false
      → u.is_verified ≡ true
      → try_logins email (p ∷ ps) w ≡ try_logins email ps (after_wrong u w)
  unfolding try_logins after_wrong
  try_logins_wrong email p ps u w held wrong open_ verified =
      ap (λ (r : Result Claims × World). try_logins email ps r.1)
        (wrong_login email p u w held wrong open_ verified)

  wrong_logins :
      (email : Text) (ps : List Text) (u : User) (w : World)
      → IsHeld email u w.users
      → is_locked u.locked_until w.now ≡ false
      → u.is_verified ≡ true
      → All (IsWrong k u) ps
      → 0 < length ps
      → u.failed_login_attempts + length ps ≡ max_failed_login_attempts
      → IsHeld email (lock_out w.now u) (try_logins email ps w).users
        × ((try_logins email ps w).now ≡ w.now)
  unfolding try_logins after_wrong
  wrong_logins email [] u w held open_ verified wrong some_ n = absurd (ground arith)
  wrong_logins email (p ∷ []) u w held open_ verified (wrong, _) some_ n =
      rw (try_logins_wrong email p [] u w held wrong open_ verified) (
        subst (λ v. IsHeld email v (after_wrong u w).users) (ground arith)
            (update_one-IsHeld e email u (count_failure w.now) w.users
              (count_failure-KeepsKeys w.now) held),
        refl,
      )
  wrong_logins email (p ∷ q ∷ ps) u w held open_ verified (wrong, rest) some_ n =
      rw (try_logins_wrong email p (q ∷ ps) u w held wrong open_ verified) (
        wrong_logins email (q ∷ ps)
          (record u { failed_login_attempts = u.failed_login_attempts + 1 }) (after_wrong u w)
          (subst (λ v. IsHeld email v (after_wrong u w).users) (ground arith)
            (update_one-IsHeld e email u (count_failure w.now) w.users
              (count_failure-KeepsKeys w.now) held))
          open_ verified rest (omega arith) (omega (arith, n)))

  locked_login :
      (email p : Text) (u : User) (w : World)
      → IsHeld email u w.users
      → is_some (present u.password) ≡ true
      → is_locked u.locked_until w.now ≡ true
      → login e k email p w ≡ (err account_locked, w)
  unfolding login login_user find_by_email
  locked_login email p u w held has locked =
      rw (find-IsHeld e email u w.users held) (ground (arith, has, locked))

  -- Wrong passwords, as many as are left of the five, lock a verified account that is not locked:
  -- until fifteen minutes later every login at the address is refused as locked, also one with the
  -- right password, and changes nothing.
  pub login-lock :
      (email : Text) (ps : List Text) (u : User) (w : World) (p : Text) (t : ℕ)
      → IsHeld email u w.users
      → is_locked u.locked_until w.now ≡ false
      → u.is_verified ≡ true
      → All (IsWrong k u) ps
      → 0 < length ps
      → u.failed_login_attempts + length ps ≡ max_failed_login_attempts
      → t < w.now + login_lock_window_ms
      → login e k email p (record (try_logins email ps w) { now = t })
        ≡ (err account_locked, record (try_logins email ps w) { now = t })
  login-lock email ps u w p t held open_ verified wrong some_ n soon =
      let (locked, _) = wrong_logins email ps u w held open_ verified wrong some_ n in
      locked_login email p (lock_out w.now u) (record (try_logins email ps w) { now = t }) locked
        (has_password ps wrong some_) (ground arith)
    where
      has_password :
          (ps : List Text)
          → All (IsWrong k u) ps
          → 0 < length ps
          → is_some (present u.password) ≡ true
      has_password [] wrong some_ = absurd (ground arith)
      has_password (p ∷ ps) ((hashed, has, _), _) some_ = rw has refl
