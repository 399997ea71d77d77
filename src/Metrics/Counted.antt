-- ===== src/Metrics/Counted.antt =====
-- common/middleware/http-observability.middleware.ts: how often an exchange is counted.
use ubuy_backend.Base.{
  or_true, ℕ, ◌≡◌, ◌≢◌, ◌⊎◌, inl, inr, refl, ap, ◌∙◌, Bool, true, false, not, ◌&&◌, ◌||◌, List, [],
  ◌∷◌, Bool-cases, arith,
}
use ubuy_backend.Texts.{Text, or_text}
use ubuy_backend.Metrics.{Metrics, RequestRecord, record_http_request}
use ubuy_backend.Metrics.Routes.{normalize_route}
use ubuy_backend.Metrics.Requests.{
  Level, LogEvent, Settings, Exchange, Tracked, Moment, Emission, finish, close, http_request,
  http_request_aborted, use_on, record_of, log_request, on_finish, on_close, deliver, deliver_all,
  status_of,
}

-- The response was finished.
pub finishes : List Emission → Bool
finishes [] = false
finishes (finish at ∷ es) = true
finishes (close at ∷ es) = finishes es

-- At the first `close` the response had not been ended.
pub aborts : List Emission → Bool
aborts [] = false
aborts (finish at ∷ es) = aborts es
aborts (close at ∷ es) = not at.writable_ended

-- The state counts a request of this method and route once more than the metrics.
IsCounted : Text → Text → Metrics → Tracked → Type 0
IsCounted method route m s =
    (r : RequestRecord) × (s.metrics ≡ record_http_request r m)
    × (r.method ≡ method)
    × (r.route ≡ route)
    × (r.status_code ≢ 0)

status_of_positive : (e : LogEvent) (n : ℕ) → status_of e n ≢ 0
status_of_positive http_request n = ground arith
status_of_positive http_request_aborted n = ground arith

-- A request that was logged is not counted again.
log_request-logged :
    (c : Settings) (v : LogEvent) (at : Moment) (s : Tracked)
    → s.logged ≡ true
    → log_request c v at s ≡ s
unfolding log_request
log_request-logged c v at s h = rw h refl

deliver-logged :
    (c : Settings) (e : Emission) (s : Tracked)
    → s.logged ≡ true
    → ((deliver c e s).logged ≡ true) × ((deliver c e s).metrics ≡ s.metrics)
unfolding deliver on_finish on_close log_request
deliver-logged c (finish at) s h = ground (arith, h)
deliver-logged c (close at) s h = ground (arith, h)

deliver_all-logged :
    (c : Settings) (es : List Emission) (s : Tracked)
    → s.logged ≡ true
    → (deliver_all c es s).metrics ≡ s.metrics
unfolding deliver_all
deliver_all-logged c [] s h = refl
deliver_all-logged c (e ∷ es) s h =
    deliver_all-logged c es (deliver c e s) (deliver-logged c e s h).0 ∙ (deliver-logged c e s h).1

-- An exchange of which nothing was logged.
open_tracked : Exchange → Bool → Metrics → List Level → Tracked
open_tracked x b m l = record {
  exchange = x;
  logged = false;
  awaits_finish = true;
  awaits_close = b;
  metrics = m;
  logs = l;
}

-- Counted once when it ends one way or the other, else not at all.
pub Fate : Bool → Text → Text → Metrics → Tracked → Type 0
Fate ends method route m s =
    ((ends ≡ true) × IsCounted method route m s) ⊎ ((ends ≡ false) × (s.metrics ≡ m))

module _ (c : Settings) (x : Exchange) (m : Metrics) where
  log_request-fresh :
      (v : LogEvent) (at : Moment) (s : Tracked)
      → s.logged ≡ false
      → ((log_request c v at s).logged ≡ true)
        × ((log_request c v at s).metrics
            ≡ record_http_request (record_of v s.exchange at) s.metrics)
  unfolding log_request
  log_request-fresh v at s h = rw h (refl, refl)

  log_request-IsCounted :
      (v : LogEvent) (at : Moment) (s : Tracked) (es : List Emission)
      → s.exchange ≡ x
      → s.logged ≡ false
      → s.metrics ≡ m
      → IsCounted x.method x.normalized_route m (deliver_all c es (log_request c v at s))
  unfolding IsCounted record_of
  log_request-IsCounted v at s es e h k =
      let (logged, counted) = log_request-fresh v at s h in
      (
        record_of v x at,
        deliver_all-logged c es (log_request c v at s) logged
            ∙ counted
            ∙ ap (λ y. record_http_request (record_of v y at) s.metrics) e
            ∙ ap (record_http_request (record_of v x at)) k,
        refl,
        refl,
        status_of_positive v at.status_code,
      )

  deliver_all-Fate :
      (es : List Emission) (b : Bool) (l : List Level)
      → Fate
          (finishes es || (b && aborts es))
          x.method
          x.normalized_route
          m
          (deliver_all c es (open_tracked x b m l))
  unfolding deliver_all deliver on_finish on_close finishes aborts open_tracked Fate
  deliver_all-Fate [] true l = inr (refl, refl)
  deliver_all-Fate [] false l = inr (refl, refl)
  deliver_all-Fate (finish at ∷ es) b l = inl (
    refl,
    log_request-IsCounted http_request at (record (open_tracked x b m l) { awaits_finish = false })
        es refl refl refl,
  )
  deliver_all-Fate (close at ∷ es) true l = elim (Bool-cases at.writable_ended) [
    | inl y ↦ rw y (deliver_all-Fate es false l)
    | inr n ↦ rw n (
        inl (
          or_true (finishes es),
          log_request-IsCounted http_request_aborted at (open_tracked x false m l) es refl refl
              refl,
        ))
  ]
  deliver_all-Fate (close at ∷ es) false l = deliver_all-Fate es false l

-- The middleware counts an exchange exactly once, with its method, the normalised route of its path
-- and a status that is not 0, if the response is finished or is closed before it was ended, in
-- whatever order and however often `finish` and `close` are emitted. Otherwise it does not count it.
pub deliver_all_lem :
    (c : Settings) (header random method path : Text) (now : ℕ) (m : Metrics) (es : List Emission)
    → Fate
        (finishes es || aborts es)
        method
        (normalize_route path)
        m
        (deliver_all c es (use_on header random method path now m))
unfolding use_on open_tracked
deliver_all_lem c header random method path now m es =
    deliver_all-Fate c
      (record {
        request_id = or_text header random;
        method = method;
        normalized_route = normalize_route path;
        started_at = now;
      })
      m es true []
