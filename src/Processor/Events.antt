-- ===== src/Processor/Events.antt =====
-- modules/auctions/auction.processor.ts: the handlers of the queue worker's events, which count the
-- event and write log entries. Of an entry its level is kept, and a job is its name and its times.
use ubuy_backend.Base.{
  ℕ, ◌-◌, Option, none, some, List, [], ◌∷◌, ◌++◌, leb, if◌then◌else◌, get_or_else,
}
use ubuy_backend.Texts.{Text, codes}
use ubuy_backend.Metrics.{
  Metrics, QueueJobEvent, active, completed, failed, error, record_queue_job,
}
use ubuy_backend.Metrics.Requests.{Level}
use ubuy_backend.Metrics.Requests

pub record WorkerJob : Type 0 where
  pub name : Text
  pub timestamp : Option ℕ
  pub processed_on : Option ℕ
  pub finished_on : Option ℕ

abbrev pub queue_name : Text
queue_name = codes "auctionQueue"

-- `Math.max(0, finishedOn - startedOn)`, on a clock that shows `now`.
unfoldable pub get_job_duration_ms : ℕ → WorkerJob → ℕ
get_job_duration_ms now job =
    get_or_else job.finished_on now - get_or_else job.processed_on (get_or_else job.timestamp now)

unfoldable pub count_event : Text → QueueJobEvent → Metrics → Metrics
unfolding record_queue_job
count_event name event m =
    record_queue_job (record { queue = queue_name; job_name = name; event = event }) m

unfoldable pub on_active : WorkerJob → Metrics → List Level × Metrics
unfolding count_event
on_active job m = (Requests.log ∷ [], count_event job.name active m)

-- A job that took the threshold's time or more is reported as slow.
unfoldable pub on_completed : ℕ → ℕ → WorkerJob → Metrics → List Level × Metrics
unfolding count_event get_job_duration_ms
on_completed slow_job_threshold_ms now job m = (
  (if leb slow_job_threshold_ms (get_job_duration_ms now job)
      then Requests.warn ∷ []
      else Requests.log ∷ []),
  count_event job.name completed m,
)

unfoldable pub on_error : Metrics → List Level × Metrics
unfolding count_event
on_error m = (Requests.error ∷ [], count_event (codes "worker") error m)

-- The job may be missing.
unfoldable pub on_failed : ℕ → ℕ → Option WorkerJob → Metrics → List Level × Metrics
unfolding count_event get_job_duration_ms
on_failed slow_job_threshold_ms now none m =
    (Requests.error ∷ [], count_event (codes "unknown") failed m)
on_failed slow_job_threshold_ms now (some job) m = (
  (if leb slow_job_threshold_ms (get_job_duration_ms now job) then Requests.warn ∷ [] else [])
      ++ Requests.warn ∷ [],
  count_event job.name failed m,
)
