-- ===== src/Accounts/Google.antt =====
-- modules/auth/auth.service.ts: `googleAuth` and `updateProfile` as changes of accounts.
use ubuy_backend.Base.{
  ℕ, zero, suc, ◌≡◌, refl, true, false, Option, none, some, arith, Option-cases, Bool-cases, inl,
  inr, is_none, take, ⊤, ap,
}
use ubuy_backend.Texts.{Text, present}
use ubuy_backend.Domain.{UserId, User}
use ubuy_backend.Platform.{Env}
use ubuy_backend.Platform.World.{
  World, Action, or_throw, update_failed, instead, pure, gets, ◌>>=◌, ◌>>◌, google_failed,
}
use ubuy_backend.Users.{
  has_email, has_user_id, find_by_email, find_by_id, find_by_username, create_user, save_named,
}
use ubuy_backend.Auth.Keys.{Keys}
use ubuy_backend.Auth.Usernames.{
  try_names, drawn, generate_unique_username, max_attempts, to_username_base,
}
use ubuy_backend.Auth.Google.{
  GoogleReply, Identity, link, identify, username_seed, new_google_user, create_google_user,
  link_named, link_nameless, sign_in, google_auth, reply_with,
}
use ubuy_backend.Auth.Profile.{
  new_name, or_else, ProfileChange, change_profile, check_name, update_profile,
}
use ubuy_backend.Accounts.{IsEdit, here}
use ubuy_backend.Accounts.Methods.{
  Follows, bind-Follows, instead-Follows, save_user-Follows, save_named-Follows,
  create_user-Follows, unchanged,
}

link-IsEdit : (p : Identity) (name : Option Text) (now : ℕ) → IsEdit (link p name now)
link-IsEdit p name now = record {
  same_id = λ u. ground arith;
  same_email = λ u. ground arith;
  stays_verified = λ u h. ground arith;
  below = λ u h. ground arith;
}

change_profile-IsEdit : (body : ProfileChange) → IsEdit (change_profile body)
change_profile-IsEdit body = record {
  same_id = λ u. refl;
  same_email = λ u. refl;
  stays_verified = λ u h. h;
  below = λ u h. h;
}

module _ (e : Env) (k : Keys) where
  try_names-users :
      (left attempt : ℕ) (base : Text) (w : World)
      → (try_names e k left attempt base w).1.users ≡ w.users
  unfolding try_names
  try_names-users zero attempt base w = refl
  try_names-users (suc left) zero base w = ground (arith, try_names-users left 1 base w)
  try_names-users (suc left) (suc attempt) base w =
      ground (arith, try_names-users left (suc (suc attempt)) base (drawn k (suc attempt) w))

  generate-Follows : (seed : Text) → Follows (generate_unique_username e k seed)
  unfolding generate_unique_username
  generate-Follows seed w =
      unchanged (try_names-users max_attempts 0 (take 22 (to_username_base k seed)) w)

  create_google_user-Follows : (p : Identity) → Follows (create_google_user e k p)
  unfolding create_google_user
  create_google_user-Follows p =
      bind-Follows (generate_unique_username e k (username_seed p)) (created p) (generate-Follows _)
        λ name w.
          bind-Follows (create_user e (new_google_user p name w.now))
            (λ u. pure (reply_with true u))
            (create_user-Follows e (new_google_user p name w.now) (λ i. refl))
            (λ u w. unchanged refl) w
    where
      created : Identity → Text → Action GoogleReply
      created p username = do
        now ← gets World.now
        user ← create_user e (new_google_user p username now)
        pure (reply_with true user)

  link_named-Follows : (p : Identity) (u : User) → Follows (link_named e k p u)
  unfolding link_named
  link_named-Follows p u w = save_user-Follows e u.id _ (link-IsEdit p u.username w.now) w

  link_nameless-Follows : (p : Identity) (u : User) → Follows (link_nameless e k p u)
  unfolding link_nameless
  link_nameless-Follows p u =
      bind-Follows (generate_unique_username e k (username_seed p)) (linked p u)
        (generate-Follows _)
        λ name w.
          bind-Follows (save_named e u.id (some name) (link p (some name) w.now))
            (λ _. pure (reply_with false (link p (some name) w.now u)))
            (save_named-Follows e u.id (some name) _ (link-IsEdit p (some name) w.now))
            (λ _ w. unchanged refl) w
    where
      linked : Identity → User → Text → Action GoogleReply
      linked p user username = do
        now ← gets World.now
        save_named e user.id (some username) (link p (some username) now)
        pure (reply_with false (link p (some username) now user))

  sign_in-Follows : (p : Identity) (o : Option User) → Follows (sign_in e k p o)
  sign_in-Follows p none w = create_google_user-Follows p w
  sign_in-Follows p (some u) w = elim (Bool-cases (is_none (present u.username))) [
    | inl nameless ↦ rw nameless (link_nameless-Follows p u w)
    | inr named ↦ rw named (link_named-Follows p u w)
  ]

  -- The part above the second `try` changes nothing.
  identify-same : (t : Text) (w : World) → (identify k t w).1 ≡ w
  unfolding identify
  identify-same t w = ground arith

  pub google_auth-Follows : (t : Text) → Follows (google_auth e k t)
  unfolding google_auth find_by_email
  google_auth-Follows t =
      bind-Follows (identify k t)
        (λ p.
          instead (λ w. sign_in e k p (e.users.find_one (has_email p.email) w.users) w)
            google_failed)
        (λ w. unchanged (ap World.users (identify-same t w)))
        (λ p.
          instead-Follows _ google_failed
            (λ w. sign_in-Follows p (e.users.find_one (has_email p.email) w.users) w))

  check_name-same :
      (i : UserId) (o : Option Text) (w : World) → (check_name e i o w).1.users ≡ w.users
  unfolding find_by_username
  check_name-same i none w = refl
  check_name-same i (some name) w = ground arith

  -- The last part of `updateProfile`: read what was saved.
  reread : UserId → ⊤ → Action User
  reread i _ w = or_throw (e.users.find_one (has_user_id i) w.users) update_failed w

  reread-Follows : (i : UserId) → Follows (reread i tt)
  unfolding reread
  reread-Follows i w = unchanged (ground arith)

  change-Follows :
      (i : UserId) (name : Option Text) (body : ProfileChange)
      → Follows (save_named e i name (change_profile body) >>= reread i)
  change-Follows i name body =
      bind-Follows (save_named e i name (change_profile body)) (reread i)
        (save_named-Follows e i name _ (change_profile-IsEdit body)) (λ _. reread-Follows i)

  pub update_profile-Follows :
      (i : UserId) (body : ProfileChange) → Follows (update_profile e i body)
  unfolding update_profile find_by_id reread
  update_profile-Follows i body w = elim (Option-cases (e.users.find_one (has_user_id i) w.users)) [
    | inl missing ↦ rw missing here
    | inr (u, found) ↦ rw found (
        bind-Follows (check_name e i (new_name (present body.username) u.username))
          (λ _.
            save_named e i (or_else body.username u.username) (change_profile body) >>= reread i)
          (λ w. unchanged (check_name-same i (new_name (present body.username) u.username) w))
          (λ _. change-Follows i (or_else body.username u.username) body) w)
  ]
