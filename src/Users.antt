-- ===== src/Users.antt =====
-- modules/users/users.service.ts: the calls on the user collection. Its schema makes `email` and
-- `username` unique, the latter where it is set, so an insertion or an update that would repeat one
-- is rejected by the database.
use ubuy_backend.Base.{
  ◌+◌, Bool, false, not, ◌&&◌, ◌||◌, Option, none, some, ◌==◌, is_some, if◌then◌else◌, ⊤,
}
use ubuy_backend.Texts.{Text, same_text, is_text}
use ubuy_backend.Domain.{UserId, User}
use ubuy_backend.Platform.{Env}
use ubuy_backend.Platform.World.{Action, ok, err, duplicate_key, gets, modify}

abbrev pub has_email : Text → User → Bool
has_email email u = same_text u.email email

abbrev pub has_username : Text → User → Bool
has_username name u = is_text u.username name

abbrev pub has_user_id : UserId → User → Bool
has_user_id i u = u.id == i

-- Two documents that the unique indexes do not allow together.
abbrev pub same_username : Option Text → User → Bool
same_username none u = false
same_username (some name) u = has_username name u

abbrev pub clashes : User → User → Bool
clashes d u = has_email d.email u || same_username d.username u

module _ (e : Env) where
  unfoldable pub find_by_email : Text → Action (Option User)
  find_by_email email = gets λ w. e.users.find_one (has_email email) w.users

  unfoldable pub find_by_username : Text → Action (Option User)
  find_by_username name = gets λ w. e.users.find_one (has_username name) w.users

  unfoldable pub find_by_id : UserId → Action (Option User)
  find_by_id i = gets λ w. e.users.find_one (has_user_id i) w.users

  -- `create`; the id of the document is the next one.
  unfoldable pub create_user : (UserId → User) → Action User
  create_user d w =
      let u = d (e.new_id w.issued) in
      if is_some (e.users.find_one (clashes u) w.users)
      then (err duplicate_key, w)
      else (ok u, record w { users = e.users.create u w.users; issued = w.issued + 1 })

  -- `user.save()` where neither indexed field has changed.
  unfoldable pub save_user : UserId → (User → User) → Action ⊤
  save_user i f = modify λ w. record w { users = e.users.update_one (has_user_id i) f w.users }

  -- `user.save()` or `updateById` where the username may have changed: `name` is the new one.
  unfoldable pub save_named : UserId → Option Text → (User → User) → Action ⊤
  unfolding save_user
  save_named i name f w =
      if is_some (e.users.find_one (λ u. not (u.id == i) && same_username name u) w.users)
      then (err duplicate_key, w)
      else save_user i f w
