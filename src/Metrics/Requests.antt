-- ===== src/Metrics/Requests.antt =====
-- common/middleware/http-observability.middleware.ts: what the middleware keeps of one exchange of
-- request and response, and its handlers of the response's `finish` and `close`, which the stream
-- calls once each. Times are nanoseconds. Of a log entry its level is kept.
use ubuy_backend.Base.{
  ℕ, ◌-◌, ◌/◌, Bool, true, false, not, List, [], ◌∷◌, ◌++◌, ◌==◌, leb, if◌then◌else◌,
}
use ubuy_backend.Texts.{Text, or_text}
use ubuy_backend.Metrics.{Metrics, RequestRecord, record_http_request}
use ubuy_backend.Metrics.Routes.{normalize_route}

pub data LogEvent : Type 0 where
  http_request http_request_aborted : LogEvent

pub data Level : Type 0 where
  log warn error : Level

-- `SLOW_HTTP_REQUEST_TRACE_MS`, and whether `HTTP_REQUEST_LOGS` and the user agent let it log.
pub record Settings : Type 0 where
  pub slow_request_threshold_ms : ℕ
  pub should_log_requests : Bool

pub record Exchange : Type 0 where
  pub request_id : Text
  pub method : Text
  pub normalized_route : Text
  pub started_at : ℕ

pub record Tracked : Type 0 where
  pub exchange : Exchange
  pub logged : Bool
  pub awaits_finish : Bool
  pub awaits_close : Bool
  pub metrics : Metrics
  pub logs : List Level

-- What the response and the clock show when an event is emitted.
pub record Moment : Type 0 where
  pub now : ℕ
  pub status_code : ℕ
  pub writable_ended : Bool

pub data Emission : Type 0 where
  finish close : Moment → Emission

-- Up to `next()`: the header `x-request-id`, a random id, the method, the path and the clock.
unfoldable pub use_on : Text → Text → Text → Text → ℕ → Metrics → Tracked
use_on request_id_header random_id method path now m = record {
  exchange = record {
    request_id = or_text request_id_header random_id;
    method = method;
    normalized_route = normalize_route path;
    started_at = now;
  };
  logged = false;
  awaits_finish = true;
  awaits_close = true;
  metrics = m;
  logs = [];
}

-- `res.statusCode || code`
abbrev pub status_or : ℕ → ℕ → ℕ
status_or status code = if status == 0 then code else status

abbrev pub status_of : LogEvent → ℕ → ℕ
status_of http_request status = status_or status 200
status_of http_request_aborted status = status_or status 499

unfoldable pub record_of : LogEvent → Exchange → Moment → RequestRecord
record_of event x at = record {
  method = x.method;
  route = x.normalized_route;
  status_code = status_of event at.status_code;
  duration_ms = (at.now - x.started_at) / 1000000;
}

-- The entry for the status of a request.
abbrev pub level_of : ℕ → Level
level_of status = if leb 500 status then error else if leb 400 status then warn else log

unfoldable pub levels : Settings → LogEvent → RequestRecord → List Level
levels c http_request_aborted r = warn ∷ []
levels c http_request r =
    if c.should_log_requests
    then (if leb c.slow_request_threshold_ms r.duration_ms then warn ∷ [] else [])
      ++ level_of r.status_code ∷ []
    else []

unfoldable pub log_request : Settings → LogEvent → Moment → Tracked → Tracked
unfolding record_of levels
log_request c event at s =
    if s.logged
    then s
    else let r = record_of event s.exchange at in
      record s {
        logged = true;
        metrics = record_http_request r s.metrics;
        logs = s.logs ++ levels c event r;
      }

-- The handlers, which `once` removes when they are called.
unfoldable pub on_finish : Settings → Moment → Tracked → Tracked
unfolding log_request
on_finish c at s =
    if s.awaits_finish
    then log_request c http_request at (record s { awaits_finish = false })
    else s

unfoldable pub on_close : Settings → Moment → Tracked → Tracked
unfolding log_request
on_close c at s =
    let t = record s { awaits_close = false } in
    if s.awaits_close
    then if not at.writable_ended then log_request c http_request_aborted at t else t
    else s

unfoldable pub deliver : Settings → Emission → Tracked → Tracked
unfolding on_finish on_close
deliver c (finish at) s = on_finish c at s
deliver c (close at) s = on_close c at s

unfoldable pub deliver_all : Settings → List Emission → Tracked → Tracked
unfolding deliver
deliver_all c [] s = s
deliver_all c (e ∷ es) s = deliver_all c es (deliver c e s)
