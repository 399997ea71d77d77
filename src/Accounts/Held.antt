-- ===== src/Accounts/Held.antt =====
-- The account of an address, through an update of it.
use mathlib.Core.Option
use ubuy_backend.Base.{
  ◌≡◌, refl, ◌∙◌, sym, ap, subst, some, List, [], ◌∷◌, arith, first, first_passes, modify_first,
  first-modify_first_self, eq_self,
}
use ubuy_backend.Texts.{Text}
use ubuy_backend.Domain.{User}
use ubuy_backend.Platform.{Env}
use ubuy_backend.Users.{has_email, has_user_id}
use ubuy_backend.Accounts.Invariant.{account}

-- `u` is the account of the address, and the only one that its id finds.
pub record IsHeld (m : Text) (u : User) (c : List User) : Type 0 where
  pub by_email : account m c ≡ some u
  pub by_id : first (has_user_id u.id) c ≡ some u

-- An update that keeps the address and the id, at one user.
pub record KeepsKeys (f : User → User) : Type 0 where
  pub same_id : (u : User) → (f u).id ≡ u.id
  pub same_email : (u : User) → (f u).email ≡ u.email

held_email :
    (m : Text) (u : User) (f : User → User) (c : List User)
    → KeepsKeys f
    → account m c ≡ some u
    → first (has_user_id u.id) c ≡ some u
    → account m (modify_first (has_user_id u.id) f c) ≡ some (f u)
held_email m u f [] h a b = cc
held_email m u f (v ∷ c) h a b = ground (
  arith,
  h.same_email v,
  eq_self u.id,
  first_passes (has_email m) c {x = u},
  held_email m u f c h,
)

module _ (e : Env) where
  pub find-IsHeld :
      (m : Text) (u : User) (c : List User)
      → IsHeld m u c
      → e.users.find_one (has_email m) c ≡ some u
  find-IsHeld m u c h = e.users.find_one_lem (has_email m) c ∙ h.by_email

  -- The account that an update of it leaves.
  pub update_one-IsHeld :
      (m : Text) (u : User) (f : User → User) (c : List User)
      → KeepsKeys f
      → IsHeld m u c
      → IsHeld m (f u) (e.users.update_one (has_user_id u.id) f c)
  update_one-IsHeld m u f c k h = record {
    by_email = rw e.users.update_one_lem (held_email m u f c k h.by_email h.by_id);
    by_id = rw e.users.update_one_lem (
        subst (λ i. first (has_user_id i) (modify_first (has_user_id u.id) f c) ≡ some (f u))
          (sym (k.same_id u))
          (first-modify_first_self (has_user_id u.id) f c (λ v. rw (k.same_id v) refl)
            ∙ ap (Option.map f) h.by_id));
  }
