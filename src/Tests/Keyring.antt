-- ===== src/Tests/Keyring.antt =====
-- A hash that only marks the password, draws that are all 0, one Google token, and a user.
use ubuy_backend.Base.{refl, Bool, true, false, none, some, [], ◌∷◌}
use ubuy_backend.Texts.{Text, codes, same_text, same_text_self}
use ubuy_backend.Domain.{User}
use ubuy_backend.Platform.World.{World}
use ubuy_backend.Auth.Keys.{Keys, GoogleClaims, claims}
use ubuy_backend.Tests.Market.{user_called, opened}

abbrev pub compare_marked : Text → Text → Bool
compare_marked p [] = false
compare_marked p (x ∷ t) = same_text p t

abbrev pub ann_mail : Text
ann_mail = codes "ann@x.io"

abbrev pub bob_mail : Text
bob_mail = codes "bob@x.io"

abbrev pub ann_claims : GoogleClaims
ann_claims = record {
  sub = some (codes "g7");
  email = some ann_mail;
  email_verified = true;
  name = none;
  picture = none;
}

abbrev pub keys : Keys
keys = record {
  hash = λ n p. 1 ∷ p;
  compare = compare_marked;
  compare-hash = λ n p. same_text_self p;
  hash_starts = λ n p. (1, p, refl);
  random_below = λ n m. 0;
  random_below-lt = λ n m h. h;
  lower = λ t. t;
  trim = λ t. t;
  google_configured = true;
  verify_id_token = λ t. claims ann_claims;
}

abbrev pub ann : User
ann = record (user_called 7) {
  email = ann_mail;
  username = some (codes "ann");
  password = some (1 ∷ codes "pw");
  password_reset_code = some (codes "123456");
  password_reset_code_expiry = some 900;
}

abbrev pub club : World
club = record opened { users = ann ∷ [] }
