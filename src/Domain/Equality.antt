-- ===== src/Domain/Equality.antt =====
-- Equality tests on the enumerations, keys and job ids, and what they decide.
use native.Mathlib.Decide.{ℕ_discrete}
use ubuy_backend.Base.{Bool, true, false, Option, none, some, ◌≡◌, refl, ◌↔◌}
use ubuy_backend.Domain.{Status, PaymentStatus, KeyKind, DedupeKey, key, JobId, Provider}

abbrev pub is_active : Status → Bool
is_active Status.active = true
is_active _ = false

abbrev pub is_ended : Status → Bool
is_ended Status.ended = true
is_ended _ = false

abbrev pub is_cancelled : Status → Bool
is_cancelled Status.cancelled = true
is_cancelled _ = false

abbrev pub is_paid : PaymentStatus → Bool
is_paid PaymentStatus.paid = true
is_paid PaymentStatus.active = false

abbrev pub is_google : Provider → Bool
is_google Provider.google = true
is_google Provider.local = false

abbrev pub of_dec {ℓ} : {A : Type ℓ} → Dec A → Bool
of_dec (yes _) = true
of_dec (no _) = false

pub of_dec_iff {ℓ} : {A : Type ℓ} (d : Dec A) → (of_dec d ≡ true) ↔ A
of_dec_iff (yes a) = (λ _. a, λ _. refl)
of_dec_iff (no h) = (λ e. cc, λ a. absurd (h a))

unfoldable pub KeyKind-discrete : Discrete KeyKind
KeyKind-discrete = hlevel

unfoldable pub DedupeKey-discrete : Discrete DedupeKey
unfolding KeyKind-discrete ℕ_discrete
DedupeKey-discrete = hlevel (KeyKind-discrete, ℕ_discrete)

unfoldable pub JobId-discrete : Discrete JobId
unfolding ℕ_discrete
JobId-discrete = hlevel ℕ_discrete

unfoldable pub same_key : Option DedupeKey → DedupeKey → Bool
unfolding DedupeKey-discrete
same_key none k = false
same_key (some j) k = of_dec (DedupeKey-discrete j k)

unfoldable pub same_job : JobId → JobId → Bool
unfolding JobId-discrete
same_job i j = of_dec (JobId-discrete i j)

pub same_key_iff : (o : Option DedupeKey) (k : DedupeKey) → (same_key o k ≡ true) ↔ (o ≡ some k)
unfolding same_key
same_key_iff none k = (λ e. cc, λ e. cc)
same_key_iff (some j) k = (
  λ e. cc ((of_dec_iff (DedupeKey-discrete j k)).0 e),
  λ e. (of_dec_iff (DedupeKey-discrete j k)).1 (cc),
)

pub same_job_iff : (i j : JobId) → (same_job i j ≡ true) ↔ (i ≡ j)
unfolding same_job
same_job_iff i j = of_dec_iff (JobId-discrete i j)

key_test : same_key (some (key KeyKind.winner 3 4 0)) (key KeyKind.winner 3 4 0) ≡ true
unfolding same_key
key_test = refl

job_test : same_job (JobId.payment_expired 3 4) (JobId.payment_reminder 3 4) ≡ false
unfolding same_job
job_test = refl
