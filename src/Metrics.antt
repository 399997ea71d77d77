-- ===== src/Metrics.antt =====
-- common/observability/observability-metrics.service.ts: the counters and snapshots that the service
-- keeps and the methods that record into them. A duration is a number of milliseconds.
pub mod Tables
pub mod Routes
pub mod Normal
pub mod Recorded
pub mod Labels
pub mod Keys
pub mod Quoted
pub mod Report
pub mod Reading
pub mod Requests
pub mod Counted
use ubuy_backend.Base.{
  ℕ, zero, suc, ◌+◌, ◌-◌, ◌&&◌, Option, none, some, List, [], ◌∷◌, ◌++◌, leb, if◌then◌else◌,
  get_or_else,
}
use ubuy_backend.Texts.{Text, codes}
use ubuy_backend.Auth.Codes.{decimal}
use ubuy_backend.Metrics.Tables.{Table, get, set}

pub record RequestRecord : Type 0 where
  pub method : Text
  pub route : Text
  pub status_code : ℕ
  pub duration_ms : ℕ

-- A minimum of `none` is `Number.POSITIVE_INFINITY`.
pub record RequestAggregate : Type 0 where
  pub count : ℕ
  pub duration_sum_ms : ℕ
  pub duration_min_ms : Option ℕ
  pub duration_max_ms : ℕ

pub data QueueJobEvent : Type 0 where
  active completed failed error : QueueJobEvent

pub record QueueJob : Type 0 where
  pub queue : Text
  pub job_name : Text
  pub event : QueueJobEvent

pub record RedisSnapshot : Type 0 where
  pub status : Text
  pub ping_response : Option Text

pub record MongoSnapshot : Type 0 where
  pub ready_state : ℕ
  pub db_name : Option Text
  pub ping_ok : Option ℕ

pub record Metrics : Type 0 where
  pub request_counters : Table ℕ
  pub request_aggregates : Table RequestAggregate
  pub queue_counters : Table ℕ
  pub redis_snapshot : RedisSnapshot
  pub mongo_snapshot : MongoSnapshot
  pub total_requests : ℕ

abbrev pub initial_metrics : Metrics
initial_metrics = record {
  request_counters = [];
  request_aggregates = [];
  queue_counters = [];
  redis_snapshot = record { status = codes "unknown"; ping_response = none };
  mongo_snapshot = record { ready_state = 0; db_name = none; ping_ok = none };
  total_requests = 0;
}

-- `toUpperCase` on the letters of an HTTP method.
abbrev pub to_upper : ℕ → ℕ
to_upper x = if leb 97 x && leb x 122 then x - 32 else x

unfoldable pub to_upper_case : Text → Text
to_upper_case [] = []
to_upper_case (x ∷ xs) = to_upper x ∷ to_upper_case xs

-- `'|'`
abbrev pub bar : ℕ
bar = 124

unfoldable pub build_key : Text → Text → ℕ → Text
build_key method route status_code =
    to_upper_case method ++ bar ∷ (route ++ bar ∷ decimal status_code)

abbrev pub no_requests : RequestAggregate
no_requests = record { count = 0; duration_sum_ms = 0; duration_min_ms = none; duration_max_ms = 0 }

-- `Math.min` and `Math.max`
abbrev pub min_ms : Option ℕ → ℕ → ℕ
min_ms none d = d
min_ms (some m) d = if leb m d then m else d

abbrev pub max_ms : ℕ → ℕ → ℕ
max_ms m d = if leb m d then d else m

unfoldable pub add_duration : RequestAggregate → ℕ → RequestAggregate
add_duration a d = record {
  count = a.count + 1;
  duration_sum_ms = a.duration_sum_ms + d;
  duration_min_ms = some (min_ms a.duration_min_ms d);
  duration_max_ms = max_ms a.duration_max_ms d;
}

-- The key of a record.
unfoldable pub request_key : RequestRecord → Text
unfolding build_key
request_key r = build_key r.method r.route r.status_code

unfoldable pub record_http_request : RequestRecord → Metrics → Metrics
unfolding request_key add_duration
record_http_request r m =
    let key = request_key r in
    let existing_count = get_or_else (get key m.request_counters) 0 in
    let existing_aggregate = get_or_else (get key m.request_aggregates) no_requests in
    record m {
      request_counters = set key (existing_count + 1) m.request_counters;
      request_aggregates =
          set key (add_duration existing_aggregate r.duration_ms) m.request_aggregates;
      total_requests = m.total_requests + 1;
    }

abbrev pub event_name : QueueJobEvent → Text
event_name active = codes "active"
event_name completed = codes "completed"
event_name failed = codes "failed"
event_name error = codes "error"

unfoldable pub job_key : QueueJob → Text
job_key input = input.queue ++ bar ∷ (input.job_name ++ bar ∷ event_name input.event)

unfoldable pub record_queue_job : QueueJob → Metrics → Metrics
unfolding job_key
record_queue_job input m =
    let key = job_key input in
    let existing = get_or_else (get key m.queue_counters) 0 in
    record m { queue_counters = set key (existing + 1) m.queue_counters }

unfoldable pub record_redis_snapshot : RedisSnapshot → Metrics → Metrics
record_redis_snapshot snapshot m = record m { redis_snapshot = snapshot }

unfoldable pub record_mongo_snapshot : MongoSnapshot → Metrics → Metrics
record_mongo_snapshot snapshot m = record m { mongo_snapshot = snapshot }
