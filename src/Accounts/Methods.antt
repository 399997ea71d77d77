-- ===== src/Accounts/Methods.antt =====
-- The calls on the user collection as changes of accounts, and the binding of methods.
use ubuy_backend.Base.{
  ◌≡◌, Option, is_some, List, arith, Option-cases, Bool-cases, inl, inr, ◌==◌, not, ◌&&◌,
}
use ubuy_backend.Texts.{Text}
use ubuy_backend.Domain.{UserId, User, MailKind}
use ubuy_backend.Platform.{Env}
use ubuy_backend.Platform.World.{World, Action, Error, Result, ok, err, instead, ◌>>=◌}
use ubuy_backend.Users.{create_user, save_user, save_named, clashes, has_user_id, same_username}
use ubuy_backend.Auth.Keys.{Keys}
use ubuy_backend.Auth.Register.{mail_code}
use ubuy_backend.Accounts.{AccountChanges, IsEdit, edit, add, here, next}

-- `m` changes the users only by a sequence of changes that the specification allows.
abbrev pub Follows : {A : Type 0} → Action A → Type 0
Follows m = (w : World) → AccountChanges w.users (m w).1.users

pub chain :
    {c c' c'' : List User} → AccountChanges c c' → AccountChanges c' c'' → AccountChanges c c''
chain h here = h
chain h (next before change) = next (chain h before) change

pub unchanged : {c c' : List User} → c' ≡ c → AccountChanges c c'
unchanged h = rw h here

pub bind-Follows :
    {A B : Type 0} (m : Action A) (f : A → Action B)
    → Follows m
    → ((a : A) → Follows (f a))
    → Follows (m >>= f)
bind-Follows {A} {B} m f h k w = go (m w) (h w)
  where
    go :
        (r : Result A × World)
        → AccountChanges w.users r.1.users
        → AccountChanges w.users (◌>>=◌ {A = A} {B = B} (λ _. r) f w).1.users
    go (ok a, w') c = chain c (k a w')
    go (err x, w') c = c

pub instead-Follows : {A : Type 0} (m : Action A) (x : Error) → Follows m → Follows (instead m x)
instead-Follows {A} m x h w = go (m w) (h w)
  where
    go :
        (r : Result A × World)
        → AccountChanges w.users r.1.users
        → AccountChanges w.users (instead {A = A} (λ _. r) x w).1.users
    go (ok a, w') c = c
    go (err y, w') c = c

module _ (e : Env) where
  pub save_user-Follows : (i : UserId) (f : User → User) → IsEdit f → Follows (save_user e i f)
  unfolding save_user
  save_user-Follows i f h w =
      next here (edit (has_user_id i) f h (e.users.update_one_lem _ f w.users))

  pub save_named-Follows :
      (i : UserId) (name : Option Text) (f : User → User)
      → IsEdit f
      → Follows (save_named e i name f)
  unfolding save_named
  save_named-Follows i name f h w =
      elim (Bool-cases
        (is_some (e.users.find_one (λ u. not (u.id == i) && same_username name u) w.users))) [
          | inl taken ↦ rw taken here
          | inr free ↦ rw free (save_user-Follows i f h w)
        ]

  pub create_user-Follows :
      (d : UserId → User)
      → ((i : UserId) → (d i).failed_login_attempts ≡ 0)
      → Follows (create_user e d)
  unfolding create_user
  create_user-Follows d h w =
      elim (Option-cases (e.users.find_one (clashes (d (e.new_id w.issued))) w.users)) [
        | inl free ↦ rw free (
            next here (
              add (d (e.new_id w.issued)) (rw e.users.find_one_lem at free) (h (e.new_id w.issued))
                (e.users.create_lem (d (e.new_id w.issued)) w.users)))
        | inr (u, taken) ↦ rw taken here
      ]

  pub mail_code-Follows :
      (k : Keys) (kind : MailKind) (to code : Text) → Follows (mail_code e k kind to code)
  unfolding mail_code
  mail_code-Follows k kind to code w = unchanged (ground arith)
