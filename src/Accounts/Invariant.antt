-- ===== src/Accounts/Invariant.antt =====
-- What no sequence of allowed changes of accounts can break.
use ubuy_backend.Base.{
  ◌≡◌, refl, ◌⊎◌, ◌∙◌, sym, ◌+◌, ◌≤◌, ◌<◌, Bool, true, Option, none, some, List, [], ◌∷◌, ◌++◌,
  arith, inl, inr, first, first-append, modify_first, count, All, All-modify_first, All-snoc,
  All-first, Bool-cases,
}
use ubuy_backend.Texts.{Text, same_text, same_text_iff}
use ubuy_backend.Domain.{User}
use ubuy_backend.Users.{has_email, clashes}
use ubuy_backend.Auth.Login.{max_failed_login_attempts}
use ubuy_backend.Accounts.{AccountChange, AccountChanges, edit, add, here, next}

-- The count of failed logins is below the limit.
abbrev pub IsCounted : User → Type 0
IsCounted u = u.failed_login_attempts < max_failed_login_attempts

-- No address has two accounts.
abbrev pub HasUniqueEmails : List User → Type 0
HasUniqueEmails c = (m : Text) → count (has_email m) c ≤ 1

-- An account and what became of it.
pub record IsSameAccount (u v : User) : Type 0 where
  pub id : v.id ≡ u.id
  pub email : v.email ≡ u.email
  pub verified : u.is_verified ≡ true → v.is_verified ≡ true

first-none-count : (p : User → Bool) (c : List User) → first p c ≡ none → count p c ≡ 0
first-none-count p [] h = refl
first-none-count p (u ∷ c) h = ground (arith, first-none-count p c)

first-weaken :
    (p q : User → Bool) (c : List User)
    → ((u : User) → p u ≡ true → q u ≡ true)
    → first q c ≡ none
    → first p c ≡ none
first-weaken p q [] h k = refl
first-weaken p q (u ∷ c) h k = ground (arith, h u, first-weaken p q c h)

count-modify_first :
    (p q : User → Bool) (f : User → User) (c : List User)
    → ((u : User) → q (f u) ≡ q u)
    → count q (modify_first p f c) ≡ count q c
count-modify_first p q f [] h = refl
count-modify_first p q f (u ∷ c) h = ground (arith, h u, count-modify_first p q f c h)

count-snoc :
    (q : User → Bool) (c : List User) (u : User)
    → count q (c ++ u ∷ []) ≡ count q c + count q (u ∷ [])
count-snoc q [] u = ground arith
count-snoc q (v ∷ c) u = ground (arith, count-snoc q c u)

first-modify_first :
    (p q : User → Bool) (f : User → User) (c : List User) (u : User)
    → ((v : User) → q (f v) ≡ q v)
    → first q c ≡ some u
    → (first q (modify_first p f c) ≡ some u) ⊎ (first q (modify_first p f c) ≡ some (f u))
first-modify_first p q f [] u h k = cc
first-modify_first p q f (v ∷ c) u h k = ground (arith, h v, first-modify_first p q f c u h)

-- A user who may be added is the first with the address.
none_before :
    (m : Text) (u : User) (c : List User)
    → has_email m u ≡ true
    → first (clashes u) c ≡ none
    → count (has_email m) c ≡ 0
none_before m u c mine free =
    first-none-count (has_email m) c (first-weaken (has_email m) (clashes u) c clash free)
  where
    same_text_eq : (s m t : Text) → same_text s m ≡ true → same_text t m ≡ true → s ≡ t
    same_text_eq s m t h k = (same_text_iff s m).0 h ∙ sym ((same_text_iff t m).0 k)

    clash : (v : User) → has_email m v ≡ true → clashes u v ≡ true
    clash v h = rw ((same_text_iff v.email u.email).1 (same_text_eq v.email m u.email h mine)) refl

AccountChange-IsCounted :
    (c c' : List User) → AccountChange c c' → All IsCounted c → All IsCounted c'
AccountChange-IsCounted c c' (edit p f h eq) a =
    rw eq (All-modify_first IsCounted p f c a (λ u k. h.below u (All-first IsCounted p c a k)))
AccountChange-IsCounted c c' (add u free zero_ eq) a =
    rw eq (All-snoc IsCounted c u a (ground arith))

AccountChange-HasUniqueEmails :
    (c c' : List User) → AccountChange c c' → HasUniqueEmails c → HasUniqueEmails c'
AccountChange-HasUniqueEmails c c' (edit p f h eq) a m =
    rw (eq, count-modify_first p (has_email m) f c (λ u. rw (h.same_email u) refl)) (a m)
AccountChange-HasUniqueEmails c c' (add u free zero_ eq) a m =
    rw (eq, count-snoc (has_email m) c u)
      (elim (Bool-cases (has_email m u)) [
        | inl mine ↦ rw (mine, none_before m u c mine free) (ground arith)
        | inr other ↦ rw other (ground (arith, a m))
      ])

-- Along any sequence of allowed changes, no address gets a second account, and no account counts as
-- many failed logins as the limit.
pub AccountChanges-safe :
    (c c' : List User)
    → AccountChanges c c'
    → All IsCounted c
    → HasUniqueEmails c
    → All IsCounted c' × HasUniqueEmails c'
AccountChanges-safe c c' here a b = (a, b)
AccountChanges-safe c c'' (next {c'} before change) a b =
    let (a', b') = AccountChanges-safe c c' before a b in
    (AccountChange-IsCounted c' c'' change a', AccountChange-HasUniqueEmails c' c'' change b')

-- The account of an address.
abbrev pub account : Text → List User → Option User
account m c = first (has_email m) c

AccountChange-account :
    (m : Text) (c c' : List User) (u : User)
    → AccountChange c c'
    → account m c ≡ some u
    → (v : User) × (account m c' ≡ some v) × IsSameAccount u v
AccountChange-account m c c' u (edit p f h eq) found =
    elim (first-modify_first p (has_email m) f c u (λ v. rw (h.same_email v) refl) found) [
      | inl same ↦ (u, rw eq same, record { id = refl; email = refl; verified = λ x. x })
      | inr changed ↦ (
        f u,
        rw eq changed,
        record { id = h.same_id u; email = h.same_email u; verified = h.stays_verified u },
      )
    ]
AccountChange-account m c c' u (add v free zero_ eq) found = (
  u,
  rw (eq, first-append (has_email m) c (v ∷ []), found) refl,
  record { id = refl; email = refl; verified = λ x. x },
)

-- Along any sequence of allowed changes the account of an address stays, with its id, and stays
-- verified when it is.
pub AccountChanges-account :
    (m : Text) (c c' : List User) (u : User)
    → AccountChanges c c'
    → account m c ≡ some u
    → (v : User) × (account m c' ≡ some v) × IsSameAccount u v
AccountChanges-account m c c' u here found =
    (u, found, record { id = refl; email = refl; verified = λ x. x })
AccountChanges-account m c c'' u (next {c'} before change) found =
    let (v, there, as_v) = AccountChanges-account m c c' u before found in
    let (x, now, as_x) = AccountChange-account m c' c'' v change there in
    (x, now, IsSameAccount-trans u v x as_v as_x)
  where
    IsSameAccount-trans : (u v x : User) → IsSameAccount u v → IsSameAccount v x → IsSameAccount u x
    IsSameAccount-trans u v x h k = record {
      id = k.id ∙ h.id;
      email = k.email ∙ h.email;
      verified = λ y. k.verified (h.verified y);
    }
