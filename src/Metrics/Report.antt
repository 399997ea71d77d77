-- ===== src/Metrics/Report.antt =====
-- `getPrometheusMetrics` of common/observability/observability-metrics.service.ts: the report as a
-- text. What `process` tells of itself is a parameter.
use ubuy_backend.Base.{
  ℕ, Bool, true, false, ◌||◌, ◌&&◌, Option, none, some, List, [], ◌∷◌, ◌++◌, ◌==◌, ltb, map,
  if◌then◌else◌, get_or_else,
}
use ubuy_backend.Texts.{Text, codes, same_text, present}
use ubuy_backend.Auth.Codes.{decimal}
use ubuy_backend.Metrics.{Metrics, RequestAggregate, RedisSnapshot, MongoSnapshot}
use ubuy_backend.Metrics.Labels.{labels_of, labels_text, escape_label}
use ubuy_backend.Metrics.Routes.{join_with}
use ubuy_backend.Metrics.Tables.{get, table_keys}

-- `process.uptime().toFixed(2)`, `memoryUsage().rss` and `heapUsed`
pub record Process : Type 0 where
  pub uptime : Text
  pub rss : ℕ
  pub heap_used : ℕ

-- The order of strings by their character codes, and `sort` by it.
unfoldable pub text_before : Text → Text → Bool
text_before [] t = true
text_before (x ∷ s) [] = false
text_before (x ∷ s) (y ∷ t) = let rest = text_before s t in ltb x y || (x == y && rest)

unfoldable pub insert_key : Text → List Text → List Text
unfolding text_before
insert_key k [] = k ∷ []
insert_key k (j ∷ js) =
    let rest = insert_key k js in if text_before k j then k ∷ j ∷ js else j ∷ rest

unfoldable pub sort_keys : List Text → List Text
unfolding insert_key
sort_keys [] = []
sort_keys (k ∷ ks) = insert_key k (sort_keys ks)

-- `toFixed(2)` of a whole number.
abbrev pub to_fixed_2 : ℕ → Text
to_fixed_2 n = decimal n ++ codes ".00"

abbrev pub space : ℕ
space = 32

-- `<name>{method="...",route="...",status="..."} <value>`
unfoldable pub request_sample : Text → Text → Text → Text
unfolding labels_of labels_text
request_sample name key value =
    name
    ++ labels_text (codes "method") (codes "route") (codes "status") (labels_of key) (space ∷ value)

unfoldable pub request_line : Metrics → Text → Text
unfolding request_sample get
request_line m key =
    request_sample (codes "ubuy_http_requests_total") key
      (decimal (get_or_else (get key m.request_counters) 0))

-- A minimum that no duration has lowered prints as `Infinity`.
abbrev pub minimum_text : Option ℕ → Text
minimum_text none = codes "Infinity"
minimum_text (some d) = to_fixed_2 d

unfoldable pub aggregate_lines : Text → Option RequestAggregate → List Text
unfolding request_sample
aggregate_lines key none = []
aggregate_lines key (some a) =
    request_sample (codes "ubuy_http_request_duration_ms_count") key (decimal a.count)
    ∷ request_sample (codes "ubuy_http_request_duration_ms_sum") key (to_fixed_2 a.duration_sum_ms)
    ∷ request_sample (codes "ubuy_http_request_duration_ms_min") key
        (minimum_text a.duration_min_ms)
    ∷ request_sample (codes "ubuy_http_request_duration_ms_max") key (to_fixed_2 a.duration_max_ms)
    ∷ []

unfoldable pub all_aggregate_lines : Metrics → List Text → List Text
unfolding aggregate_lines get
all_aggregate_lines m [] = []
all_aggregate_lines m (key ∷ rest) =
    aggregate_lines key (get key m.request_aggregates) ++ all_aggregate_lines m rest

unfoldable pub queue_line : Metrics → Text → Text
unfolding labels_of labels_text get
queue_line m key =
    codes "ubuy_queue_jobs_total"
    ++ labels_text (codes "queue") (codes "job") (codes "event") (labels_of key)
        (space ∷ decimal (get_or_else (get key m.queue_counters) 0))

-- `# HELP <name> <help>` and `# TYPE <name> <type>`
abbrev pub comments : Text → Text → Text → List Text
comments name help type =
    (codes "# HELP " ++ (name ++ space ∷ help)) ∷ (codes "# TYPE " ++ (name ++ space ∷ type)) ∷ []

unfoldable pub redis_lines : RedisSnapshot → List Text
unfolding escape_label same_text
redis_lines s =
    comments (codes "ubuy_redis_connection_status") (codes "Redis connection status snapshot")
      (codes "gauge")
    ++ (codes "ubuy_redis_connection_status{status=\"" ++ (escape_label s.status ++ codes "\"} 1"))
      ∷ elim (present s.ping_response) [
        | none ↦ []
        | some response ↦
            comments (codes "ubuy_redis_last_ping_ok") (codes "Redis ping success snapshot")
              (codes "gauge")
            ++ (codes "ubuy_redis_last_ping_ok "
                ++ (if same_text response (codes "PONG") then codes "1" else codes "0"))
              ∷ []
      ]

unfoldable pub mongo_lines : MongoSnapshot → List Text
unfolding escape_label
mongo_lines s =
    comments (codes "ubuy_mongo_connection_ready_state") (codes "Mongo ready state snapshot")
      (codes "gauge")
    ++ (codes "ubuy_mongo_connection_ready_state{db=\""
        ++ (escape_label (get_or_else s.db_name (codes "unknown"))
            ++ (codes "\"} " ++ decimal s.ready_state)))
      ∷ elim s.ping_ok [
        | none ↦ []
        | some ok ↦
            comments (codes "ubuy_mongo_last_ping_ok") (codes "Mongo ping success snapshot")
              (codes "gauge")
            ++ (codes "ubuy_mongo_last_ping_ok " ++ decimal ok) ∷ []
      ]

unfoldable pub process_lines : Process → List Text
process_lines p =
    comments (codes "ubuy_process_uptime_seconds") (codes "Process uptime in seconds")
      (codes "gauge")
    ++ (codes "ubuy_process_uptime_seconds " ++ p.uptime)
      ∷ comments (codes "ubuy_process_memory_rss_bytes") (codes "Resident set size in bytes")
          (codes "gauge")
    ++ (codes "ubuy_process_memory_rss_bytes " ++ decimal p.rss)
      ∷ comments (codes "ubuy_process_memory_heap_used_bytes") (codes "Heap used in bytes")
          (codes "gauge")
    ++ (codes "ubuy_process_memory_heap_used_bytes " ++ decimal p.heap_used) ∷ []

unfoldable pub report_lines : Process → Metrics → List Text
unfolding request_line all_aggregate_lines queue_line redis_lines mongo_lines process_lines
    sort_keys table_keys
report_lines p m =
    let sorted_keys = sort_keys (table_keys m.request_counters) in
    comments (codes "ubuy_http_requests_observed_total")
      (codes "Total number of HTTP requests observed across all routes") (codes "counter")
    ++ (codes "ubuy_http_requests_observed_total " ++ decimal m.total_requests)
      ∷ comments (codes "ubuy_http_requests_total") (codes "Total number of HTTP requests observed")
          (codes "counter")
    ++ map (request_line m) sorted_keys
    ++ comments (codes "ubuy_http_request_duration_ms")
        (codes "HTTP request duration statistics in milliseconds") (codes "summary")
    ++ all_aggregate_lines m sorted_keys
    ++ comments (codes "ubuy_queue_jobs_total")
        (codes "Total number of queue job lifecycle events observed") (codes "counter")
    ++ map (queue_line m) (sort_keys (table_keys m.queue_counters))
    ++ redis_lines m.redis_snapshot
    ++ mongo_lines m.mongo_snapshot
    ++ process_lines p

abbrev pub newline : ℕ
newline = 10

unfoldable pub get_prometheus_metrics : Process → Metrics → Text
unfolding report_lines join_with
get_prometheus_metrics p m = join_with newline (report_lines p m) ++ newline ∷ []
