-- ===== src/Tests/Accounts.antt =====
-- The properties of accounts at concrete inputs.
use ubuy_backend.Base.{
  ◌+◌, ◌≤◌, ◌⊎◌, ◌≡◌, refl, true, false, none, some, List, [], ◌∷◌, ◌++◌, All, arith,
}
use ubuy_backend.Texts.{Text, codes, same_text}
use ubuy_backend.Domain.{User}
use ubuy_backend.Platform.World.{ok, err, account_locked, email_not_verified, invalid_code}
use ubuy_backend.Auth.Register.{signup, verify_email}
use ubuy_backend.Auth.Reset.{reset_password, password_reset}
use ubuy_backend.Auth.Login.{login, claims_of}
use ubuy_backend.Auth.Google.{Identity, google_auth, identify, reply_with}
use ubuy_backend.Auth.Usernames.{is_free, generate_unique_username}
use ubuy_backend.Accounts.{AccountChanges}
use ubuy_backend.Accounts.Calls.{
  Call, signs_up, verifies, logs_in, resets, comes_from_google, asks_again, waits_until, run_all,
  run_all-AccountChanges,
}
use ubuy_backend.Accounts.Held.{IsHeld}
use ubuy_backend.Accounts.Invariant.{IsCounted, HasUniqueEmails, IsSameAccount, account}
use ubuy_backend.Accounts.Joining.{IsFresh, signup_code, signup_mail, signup-login}
use ubuy_backend.Accounts.Kept.{run_all_safe}
use ubuy_backend.Accounts.Linked.{linked, google_auth-login}
use ubuy_backend.Accounts.Lockout.{IsWrong, try_logins, login_iff, login-lock}
use ubuy_backend.Accounts.Names.{IsGenerated, generate_unique_username-IsGenerated}
use ubuy_backend.Accounts.Recovery.{reset_password-login}
use ubuy_backend.Tests.Keyring.{keys, ann, club, ann_mail, bob_mail}
use ubuy_backend.Tests.Market.{env}

ann-IsHeld : IsHeld ann_mail ann club.users
unfolding same_text
ann-IsHeld = record { by_email = refl; by_id = refl }

login_iff_example : (login env keys ann_mail (codes "pw") club).0 ≡ ok (claims_of ann)
unfolding same_text
login_iff_example = (login_iff env keys ann_mail (codes "pw") club (claims_of ann)).1 (
  ann,
  refl,
  record {
    hashed = 1 ∷ codes "pw";
    has_password = refl;
    unlocked = refl;
    verified = refl;
    compares = refl;
  },
  refl,
)

abbrev guesses : List Text
guesses = codes "a" ∷ codes "b" ∷ codes "c" ∷ codes "d" ∷ codes "e" ∷ []

guesses-IsWrong : All (IsWrong keys ann) guesses
unfolding same_text
guesses-IsWrong = (
  (1 ∷ codes "pw", refl, refl),
  (
    (1 ∷ codes "pw", refl, refl),
    (
      (1 ∷ codes "pw", refl, refl),
      ((1 ∷ codes "pw", refl, refl), ((1 ∷ codes "pw", refl, refl), tt)),
    ),
  ),
)

login-lock_example :
    login env keys ann_mail
      (codes "pw")
      (record (try_logins env keys ann_mail guesses club) { now = 900000 })
    ≡ (err account_locked, record (try_logins env keys ann_mail guesses club) { now = 900000 })
login-lock_example =
    login-lock env keys ann_mail guesses ann club (codes "pw") 900000 ann-IsHeld refl refl
      guesses-IsWrong (omega arith) refl (omega arith)

reset_password-login_example :
    let (answer, w') = reset_password env keys ann_mail (codes "123456") (codes "new") club in
    (answer ≡ ok tt)
    × ((login env keys ann_mail (codes "new") w').0 ≡ ok (claims_of ann))
    × (reset_password env keys ann_mail (codes "123456") (codes "pw") (record w' { now = 9000000 })
        ≡ (err invalid_code, record w' { now = 9000000 }))
unfolding same_text
reset_password-login_example =
    reset_password-login env keys ann_mail (codes "123456") (codes "new") (codes "pw") 9000000 ann
      club ann-IsHeld refl refl refl refl

bob-IsFresh : IsFresh env keys bob_mail (codes "bob") club
unfolding same_text
bob-IsFresh = record { no_email = refl; no_username = refl; no_id = refl }

signup-login_example :
    let (answer, w') = signup env keys bob_mail (codes "pw") (codes "bob") club in
    let (verified, w'') =
      verify_email env keys bob_mail (signup_code env keys club) (record w' { now = 600 }) in
    (answer ≡ ok tt)
    × (w'.mails ≡ club.mails ++ signup_mail env keys bob_mail club ∷ [])
    × (login env keys bob_mail (codes "pw") w' ≡ (err email_not_verified, w'))
    × (verified ≡ ok tt)
    × ((login env keys bob_mail (codes "pw") w'').0 ≡ ok (record { sub = 1000; email = bob_mail }))
signup-login_example =
    signup-login env keys bob_mail (codes "pw") (codes "bob") club 600 bob-IsFresh refl
      (omega arith)

abbrev ann_identity : Identity
ann_identity = record { google_id = codes "g7"; email = ann_mail; name = none; picture = none }

ann_identified : identify keys [] club ≡ (ok ann_identity, club)
unfolding identify
ann_identified = refl

google_auth-login_example :
    let (answer, w') = google_auth env keys [] club in
    (answer ≡ ok (reply_with false (linked env keys ann_identity ann club)))
    × ((login env keys ann_mail (codes "pw") w').0 ≡ ok (claims_of ann))
unfolding same_text
google_auth-login_example =
    google_auth-login env keys [] (codes "pw") (1 ∷ codes "pw") ann_identity ann club ann_identified
      ann-IsHeld refl refl refl refl

abbrev visits : List Call
visits =
    signs_up bob_mail (codes "pw") (codes "bob")
    ∷ waits_until 700
    ∷ verifies bob_mail (codes "100000")
    ∷ logs_in bob_mail (codes "no")
    ∷ comes_from_google []
    ∷ asks_again ann_mail password_reset
    ∷ resets ann_mail (codes "100000") (codes "new")
    ∷ []

run_all-AccountChanges_example : AccountChanges club.users (run_all env keys visits club).users
run_all-AccountChanges_example = run_all-AccountChanges env keys visits club

ann_alone : HasUniqueEmails club.users
ann_alone m = ground arith

run_all_safe_example :
    All IsCounted (run_all env keys visits club).users
    × HasUniqueEmails (run_all env keys visits club).users
    × ((v : User) × (account ann_mail (run_all env keys visits club).users ≡ some v)
        × IsSameAccount ann v)
unfolding same_text
run_all_safe_example =
    run_all_safe env keys visits club ann_mail ann (omega arith, tt) ann_alone refl

generate_unique_username-IsGenerated_example :
    let (answer, w') = generate_unique_username env keys (codes "ann") club in
    (name : Text) × (answer ≡ ok name)
    × IsGenerated keys env name club
    × (w'.draws ≤ club.draws + 14)
    × ((is_free env keys name club ≡ true) ⊎ (w'.draws ≡ club.draws + 14))
generate_unique_username-IsGenerated_example =
    generate_unique_username-IsGenerated env keys (codes "ann") club
