-- ===== src/Metrics/Reading.antt =====
-- What a reader finds in the lines that `getPrometheusMetrics` of
-- common/observability/observability-metrics.service.ts prints for requests.
use ubuy_backend.Base.{ℕ, ◌≡◌, refl, ap, ◌∙◌, some, ◌∷◌, ◌++◌, get_or_else}
use ubuy_backend.Texts.{Text, codes}
use ubuy_backend.Auth.Codes.{decimal}
use ubuy_backend.Metrics.{Metrics, bar, build_key, to_upper_case}
use ubuy_backend.Metrics.Labels.{quote, labels_of}
use ubuy_backend.Metrics.Keys.{labels_of-build_key, labels_of-build_key-bar}
use ubuy_backend.Metrics.Quoted.{count-Lacks, read_labels, read_labels-labels_text}
use ubuy_backend.Metrics.Normal.{Lacks}
use ubuy_backend.Metrics.Report.{request_line, space}
use ubuy_backend.Metrics.Tables.{get}

read_labels-request_line :
    (m : Metrics) (key : Text) → read_labels (request_line m key) ≡ some (labels_of key)
unfolding request_line
read_labels-request_line m key =
    read_labels-labels_text (codes "ubuy_http_requests_total") (codes "method") (codes "route")
      (codes "status") (space ∷ decimal (get_or_else (get key m.request_counters) 0))
      (labels_of key) (count-Lacks quote (codes "ubuy_http_requests_total") refl)
      (count-Lacks quote (codes "method") refl) (count-Lacks quote (codes "route") refl)
      (count-Lacks quote (codes "status") refl)

-- The line of the requests with a method, a route and a status shows a reader the method in upper
-- case, the route and the status, whatever quotes and backslashes the route has, if the method and
-- the route have no bar `|`. If the route has one bar, the line shows the part before the bar as
-- the route and the part behind it as the status.
pub request_line_lem :
    (m : Metrics) (method a b : Text) (status : ℕ)
    → Lacks bar method
    → Lacks bar a
    → Lacks bar b
    → (read_labels (request_line m (build_key method a status))
        ≡ some (record {
          first_label = to_upper_case method;
          second_label = a;
          third_label = decimal status;
        }))
      × (read_labels (request_line m (build_key method (a ++ bar ∷ b) status))
          ≡ some (record { first_label = to_upper_case method; second_label = a; third_label = b }))
request_line_lem m method a b status h k l = (
  read_labels-request_line m (build_key method a status)
      ∙ ap some (labels_of-build_key method a status h k),
  read_labels-request_line m (build_key method (a ++ bar ∷ b) status)
      ∙ ap some (labels_of-build_key-bar method a b status h k l),
)
