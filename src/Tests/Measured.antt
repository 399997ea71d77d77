-- ===== src/Tests/Measured.antt =====
-- The theorems on the metrics and on the health check, at concrete requests.
use ubuy_backend.Base.{
  ℕ, ◌≡◌, ◌≢◌, refl, true, false, ◌||◌, ◌&&◌, ◌==◌, is_some, Option, none, some, List, [], ◌∷◌,
  ◌++◌, All,
}
use ubuy_backend.Texts.{Text, codes, split, present}
use ubuy_backend.Auth.Codes.{decimal}
use ubuy_backend.Metrics.{
  Metrics, RequestRecord, initial_metrics, bar, build_key, to_upper_case, completed,
}
use ubuy_backend.Metrics.Counted.{Fate, finishes, aborts, deliver_all_lem}
use ubuy_backend.Metrics.Quoted.{read_labels, count-Lacks}
use ubuy_backend.Metrics.Normal.{is_id, normalize_route_twice}
use ubuy_backend.Metrics.Reading.{request_line_lem}
use ubuy_backend.Metrics.Recorded.{
  Recorded, request, job, record_all, IsRecorded, record_all-IsRecorded,
}
use ubuy_backend.Metrics.Report.{request_line}
use ubuy_backend.Metrics.Requests.{Settings, Emission, finish, close, deliver_all, use_on}
use ubuy_backend.Metrics.Routes.{
  slash, normalize_route, join_with, normalized_segment, is_number, is_uuid, all_digits,
}
use ubuy_backend.Payments.LinkId.{is_object_id}
use ubuy_backend.Health.{MongoConnection, check}
use ubuy_backend.Health.Probed.{mongo_answers, is_pong, is_open, check_lem}
use ubuy_backend.Health.Redis.{Driver, Service, ping}

abbrev a_path : Text
a_path = codes "/v1/auctions/507f1f77bcf86cd799439011/bids?page=2"

normalized : normalize_route a_path ≡ codes "/v1/auctions/:id/bids"
unfolding normalize_route join_with split normalized_segment is_number is_object_id is_uuid
    all_digits
normalized = refl

normalize_route_twice_example :
    (normalize_route (normalize_route a_path) ≡ normalize_route a_path)
    × All (λ s. is_id s ≡ false) (split slash (normalize_route a_path))
normalize_route_twice_example = normalize_route_twice a_path

abbrev a_request : ℕ → RequestRecord
a_request d = record {
  method = codes "get";
  route = codes "/v1/auctions";
  status_code = 200;
  duration_ms = d;
}

abbrev a_log : List Recorded
a_log =
    request (a_request 5)
    ∷ job
        (record { queue = codes "auctionQueue"; job_name = codes "endAuction"; event = completed })
    ∷ request (a_request 3)
    ∷ []

abbrev a_key : Text
a_key = codes "GET|/v1/auctions|200"

record_all-IsRecorded_example : IsRecorded a_key a_log (record_all a_log initial_metrics)
record_all-IsRecorded_example = record_all-IsRecorded a_key a_log

abbrev after_log : Metrics
after_log = record_all a_log initial_metrics

request_line_example :
    (read_labels (request_line after_log (build_key (codes "get") (codes "/a") 200))
      ≡ some (record {
        first_label = to_upper_case (codes "get");
        second_label = codes "/a";
        third_label = decimal 200;
      }))
    × (read_labels
          (request_line after_log (build_key (codes "get") (codes "/a" ++ bar ∷ codes "b") 200))
        ≡ some (record {
          first_label = to_upper_case (codes "get");
          second_label = codes "/a";
          third_label = codes "b";
        }))
request_line_example =
    request_line_lem after_log (codes "get") (codes "/a") (codes "b") 200
      (count-Lacks bar (codes "get") refl) (count-Lacks bar (codes "/a") refl)
      (count-Lacks bar (codes "b") refl)

abbrev quiet : Settings
quiet = record { slow_request_threshold_ms = 250; should_log_requests = false }

abbrev at_end : Emission
at_end = finish (record { now = 7000000; status_code = 200; writable_ended = true })

abbrev at_close : Emission
at_close = close (record { now = 8000000; status_code = 200; writable_ended = true })

deliver_all_example :
    Fate
      (finishes (at_end ∷ at_close ∷ []) || aborts (at_end ∷ at_close ∷ []))
      (codes "GET")
      (normalize_route a_path)
      initial_metrics
      (deliver_all quiet
        (at_end ∷ at_close ∷ [])
        (use_on [] (codes "id") (codes "GET") a_path 2000000 initial_metrics))
deliver_all_example =
    deliver_all_lem quiet [] (codes "id") (codes "GET") a_path 2000000 initial_metrics
      (at_end ∷ at_close ∷ [])

-- A client that is its status, and always answers.
abbrev answering : Driver Text
answering = record {
  create_client = codes "wait";
  status = λ c. c;
  connect = λ c. (true, codes "ready");
  ping = λ c. (some (codes "PONG"), c);
  quit = λ c. (true, codes "end");
  disconnect = λ c. codes "end";
}

abbrev connected : MongoConnection
connected = record { ready_state = 1; has_db = true; name = some (codes "ubuy"); ping_ok = some 1 }

abbrev uri : Option Text
uri = some (codes "mongodb://localhost")

abbrev service : Service Text
service = record { client = codes "wait"; metrics = initial_metrics }

healthy : (check answering connected uri service).0 ≡ 200
unfolding check
healthy = refl

check_example :
    (((check answering connected uri service).0 == 200)
      ≡ (mongo_answers connected && is_pong (ping answering service).0 && is_some (present uri)))
    × ((check answering connected uri service).0 ≡ 200
        → ((check answering connected uri service).1.metrics.redis_snapshot.ping_response
            ≡ some (codes "PONG"))
          × ((check answering connected uri service).1.metrics.mongo_snapshot
              ≡ record { ready_state = 1; db_name = connected.name; ping_ok = some 1 }))
    × (is_open answering service.client ≡ true
        → (ping answering service).0 ≡ none
        → ((check answering connected uri service).0 ≢ 200)
          × ((check answering connected uri service).1.metrics.redis_snapshot
              ≡ service.metrics.redis_snapshot))
    × ((connected.ready_state == 1) ≡ false
        → ((check answering connected uri service).0 ≢ 200)
          × ((check answering connected uri service).1.metrics.mongo_snapshot
              ≡ service.metrics.mongo_snapshot))
check_example = check_lem answering connected uri service
