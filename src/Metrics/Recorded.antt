-- ===== src/Metrics/Recorded.antt =====
-- The counters of common/observability/observability-metrics.service.ts against the list of the
-- records and queue events that were made.
use ubuy_backend.Base.{
  ℕ, suc, ◌+◌, ◌≡◌, refl, sym, ap, ◌∙◌, Bool, Option, none, some, List, [], ◌∷◌, if◌then◌else◌,
  get_or_else, arith, count, length, ◌==◌, ◌≤◌, ◌<◌, All, subst, eq_self, ◌⊎◌, inl, inr,
}
use ubuy_backend.Texts.{Text, same_text, same_text_self}
use ubuy_backend.Metrics.{
  Metrics, RequestRecord, RequestAggregate, QueueJob, initial_metrics, no_requests, request_key,
  job_key, add_duration, record_http_request, record_queue_job, min_ms, max_ms,
}
use ubuy_backend.Metrics.Tables.{Table, get, set, get-set_self, get-set_other, Text-cases}

-- A request or an event of a job is recorded. The last one stands in front.
pub data Recorded : Type 0 where
  request : RequestRecord → Recorded
  job : QueueJob → Recorded

abbrev pub record_one : Recorded → Metrics → Metrics
record_one (request r) m = record_http_request r m
record_one (job j) m = record_queue_job j m

unfoldable pub record_all : List Recorded → Metrics → Metrics
record_all [] m = m
record_all (r ∷ rs) m = record_one r (record_all rs m)

-- The durations of the requests under a key, the last first.
pub durations : Text → List Recorded → List ℕ
durations k [] = []
durations k (request r ∷ rs) =
    let rest = durations k rs in if same_text (request_key r) k then r.duration_ms ∷ rest else rest
durations k (job j ∷ rs) = durations k rs

jobs : Text → List Recorded → ℕ
jobs k [] = 0
jobs k (request r ∷ rs) = jobs k rs
jobs k (job j ∷ rs) = (if same_text (job_key j) k then 1 else 0) + jobs k rs

requests : List Recorded → ℕ
requests [] = 0
requests (request r ∷ rs) = suc (requests rs)
requests (job j ∷ rs) = requests rs

sum : List ℕ → ℕ
sum [] = 0
sum (d ∷ ds) = sum ds + d

-- The number is in the list and none is less (greater).
IsMinimum : ℕ → List ℕ → Type 0
IsMinimum m ds = (0 < count (λ d. d == m) ds) × All (λ d. m ≤ d) ds

IsMaximum : ℕ → List ℕ → Type 0
IsMaximum m ds = (0 < count (λ d. d == m) ds) × All (λ d. d ≤ m) ds

-- The aggregate tells the number, the sum and the bounds of the durations.
IsSummary : Option RequestAggregate → List ℕ → Type 0
IsSummary none ds = ds ≡ []
IsSummary (some a) ds =
    (a.count ≡ length ds)
    × (a.duration_sum_ms ≡ sum ds)
    × ((m : ℕ) × (a.duration_min_ms ≡ some m) × IsMinimum m ds)
    × IsMaximum a.duration_max_ms ds

All-weaken : (p q : ℕ → Type 0) (ds : List ℕ) → ((d : ℕ) → p d → q d) → All p ds → All q ds
All-weaken p q [] f h = tt
All-weaken p q (d ∷ ds) f h = (f d h.0, All-weaken p q ds f h.1)

min_ms-cases : (m d : ℕ) → ((min_ms (some m) d ≡ m) × (m ≤ d)) ⊎ ((min_ms (some m) d ≡ d) × (d ≤ m))
min_ms-cases m d = ground arith

max_ms-cases : (m d : ℕ) → ((max_ms m d ≡ m) × (d ≤ m)) ⊎ ((max_ms m d ≡ d) × (m ≤ d))
max_ms-cases m d = ground arith

count-here : (d : ℕ) (ds : List ℕ) → 0 < count (λ x. x == d) (d ∷ ds)
count-here d ds = rw (eq_self d) (omega arith)

count-there :
    (m d : ℕ) (ds : List ℕ) → 0 < count (λ x. x == m) ds → 0 < count (λ x. x == m) (d ∷ ds)
count-there m d ds h = omega arith

IsMinimum-cons : (m d : ℕ) (ds : List ℕ) → IsMinimum m ds → IsMinimum (min_ms (some m) d) (d ∷ ds)
unfolding IsMinimum
IsMinimum-cons m d ds h = elim (min_ms-cases m d) [
  | inl (e, l) ↦ subst (λ n. IsMinimum n (d ∷ ds)) (sym e) (count-there m d ds h.0, (l, h.1))
  | inr (e, l) ↦
      subst (λ n. IsMinimum n (d ∷ ds)) (sym e)
        (
          count-here d ds,
          (omega arith, All-weaken (λ c. m ≤ c) (λ c. d ≤ c) ds (λ c k. omega arith) h.1),
        )
]

IsMaximum-cons : (m d : ℕ) (ds : List ℕ) → IsMaximum m ds → IsMaximum (max_ms m d) (d ∷ ds)
unfolding IsMaximum
IsMaximum-cons m d ds h = elim (max_ms-cases m d) [
  | inl (e, l) ↦ subst (λ n. IsMaximum n (d ∷ ds)) (sym e) (count-there m d ds h.0, (l, h.1))
  | inr (e, l) ↦
      subst (λ n. IsMaximum n (d ∷ ds)) (sym e)
        (
          count-here d ds,
          (omega arith, All-weaken (λ c. c ≤ m) (λ c. c ≤ d) ds (λ c k. omega arith) h.1),
        )
]

max_ms-zero : (d : ℕ) → max_ms 0 d ≡ d
max_ms-zero d = ground arith

-- One more duration.
add_duration-IsSummary :
    (o : Option RequestAggregate) (d : ℕ) (ds : List ℕ)
    → IsSummary o ds
    → IsSummary (some (add_duration (get_or_else o no_requests) d)) (d ∷ ds)
unfolding IsSummary add_duration sum IsMinimum IsMaximum
add_duration-IsSummary none d ds h =
    subst (λ l. IsSummary (some (add_duration no_requests d)) (d ∷ l)) (sym h)
      (
        refl,
        omega arith,
        (d, refl, (count-here d [], (omega arith, tt))),
        subst (λ n. IsMaximum n (d ∷ [])) (sym (max_ms-zero d))
            (count-here d [], (omega arith, tt)),
      )
add_duration-IsSummary (some a) d ds (c, s, (m, e, l), u) = (
  omega arith,
  omega (arith, s),
  (min_ms (some m) d, ap (λ o. some (min_ms o d)) e, IsMinimum-cons m d ds l),
  IsMaximum-cons a.duration_max_ms d ds u,
)

-- What the tables hold under each key after the records.
pub IsRecorded : Text → List Recorded → Metrics → Type 0
IsRecorded k rs m =
    (get_or_else (get k m.request_counters) 0 ≡ length (durations k rs))
    × IsSummary (get k m.request_aggregates) (durations k rs)
    × (get_or_else (get k m.queue_counters) 0 ≡ jobs k rs)
    × (m.total_requests ≡ requests rs)

counter-set :
    (j k : Text) (t : Table ℕ)
    → get_or_else (get k (set j (get_or_else (get j t) 0 + 1) t)) 0
      ≡ (if same_text j k then 1 else 0) + get_or_else (get k t) 0
counter-set j k t = elim (Text-cases j k) [
  | inl e ↦
      rw e
        (rw (same_text_self k) (rw (get-set_self k (get_or_else (get k t) 0 + 1) t) (omega arith)))
  | inr n ↦ rw n.0 (rw (get-set_other k j (get_or_else (get j t) 0 + 1) t n.0) (omega arith))
]

aggregate-set :
    (j k : Text) (t : Table RequestAggregate) (d : ℕ) (ds : List ℕ)
    → IsSummary (get k t) ds
    → IsSummary
        (get k (set j (add_duration (get_or_else (get j t) no_requests) d) t))
        (if same_text j k then d ∷ ds else ds)
aggregate-set j k t d ds h = elim (Text-cases j k) [
  | inl e ↦ rw e (
      rw (same_text_self k) (
        rw (get-set_self k (add_duration (get_or_else (get k t) no_requests) d) t)
          (add_duration-IsSummary (get k t) d ds h)))
  | inr n ↦
      rw n.0 (rw (get-set_other k j (add_duration (get_or_else (get j t) no_requests) d) t n.0) h)
]

length-if :
    (b : Bool) (d : ℕ) (ds : List ℕ)
    → length (if b then d ∷ ds else ds) ≡ (if b then 1 else 0) + length ds
length-if b d ds = ground arith

record_http_request-IsRecorded :
    (k : Text) (r : RequestRecord) (rs : List Recorded) (m : Metrics)
    → IsRecorded k rs m
    → IsRecorded k (request r ∷ rs) (record_http_request r m)
unfolding IsRecorded record_http_request durations jobs requests
record_http_request-IsRecorded k r rs m (c, a, q, t) = (
  counter-set (request_key r) k m.request_counters
      ∙ ap (λ n. (if same_text (request_key r) k then 1 else 0) + n) c
      ∙ sym (length-if (same_text (request_key r) k) r.duration_ms (durations k rs)),
  aggregate-set (request_key r) k m.request_aggregates r.duration_ms (durations k rs) a,
  q,
  omega (arith, t),
)

record_queue_job-IsRecorded :
    (k : Text) (j : QueueJob) (rs : List Recorded) (m : Metrics)
    → IsRecorded k rs m
    → IsRecorded k (job j ∷ rs) (record_queue_job j m)
unfolding IsRecorded record_queue_job durations jobs requests
record_queue_job-IsRecorded k j rs m (c, a, q, t) = (
  c,
  a,
  counter-set (job_key j) k m.queue_counters
      ∙ ap (λ n. (if same_text (job_key j) k then 1 else 0) + n) q,
  t,
)

-- After any requests and job events that were recorded since the start, what the service keeps is
-- what the list of them says, for each key: the counter of requests is the number of the requests
-- under the key, their aggregate has this number, the sum, a least and a greatest of their
-- durations and is missing if there is none, the counter of job events is the number of those under
-- the key, and the total is the number of all requests.
pub record_all-IsRecorded :
    (k : Text) (rs : List Recorded) → IsRecorded k rs (record_all rs initial_metrics)
unfolding record_all IsRecorded IsSummary get durations jobs requests
record_all-IsRecorded k [] = (refl, refl, refl, refl)
record_all-IsRecorded k (request r ∷ rs) =
    record_http_request-IsRecorded k r rs (record_all rs initial_metrics)
      (record_all-IsRecorded k rs)
record_all-IsRecorded k (job j ∷ rs) =
    record_queue_job-IsRecorded k j rs (record_all rs initial_metrics) (record_all-IsRecorded k rs)
