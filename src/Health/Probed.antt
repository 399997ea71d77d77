-- ===== src/Health/Probed.antt =====
-- What `HealthController.check` answers and leaves in the metrics.
use ubuy_backend.Base.{
  ◌≡◌, ◌≢◌, refl, ap, ◌∙◌, Bool, true, false, ◌&&◌, not, Option, none, some, ◌==◌, is_some, arith,
  is_just,
}
use ubuy_backend.Texts.{Text, codes, same_text, same_text_iff, present}
use ubuy_backend.Metrics.{Metrics, RedisSnapshot, record_mongo_snapshot, record_redis_snapshot}
use ubuy_backend.Health.{
  MongoConnection, is_up, check_mongo, check_redis, check_config, is_healthy, get_health, check,
}
use ubuy_backend.Health.Redis.{
  Driver, Service, PingReply, ping, ping_client, ensure_connected, connect_waiting, replace_closed,
  start_service, record_status, has_status,
}

-- `PONG`
abbrev pub is_pong : Option PingReply → Bool
is_pong none = false
is_pong (some reply) = same_text reply.response (codes "PONG")

-- The database is connected and answers its ping with 1.
abbrev pub mongo_answers : MongoConnection → Bool
mongo_answers c = c.ready_state == 1 && c.has_db && is_just c.ping_ok 1

check_mongo-up : (c : MongoConnection) (m : Metrics) → is_up (check_mongo c m).0 ≡ mongo_answers c
unfolding check_mongo
check_mongo-up c m = ground arith

check_mongo-redis :
    (c : MongoConnection) (m : Metrics) → (check_mongo c m).1.redis_snapshot ≡ m.redis_snapshot
unfolding check_mongo record_mongo_snapshot
check_mongo-redis c m = ground arith

check_mongo-recorded :
    (c : MongoConnection) (m : Metrics)
    → mongo_answers c ≡ true
    → (check_mongo c m).1.mongo_snapshot
      ≡ record { ready_state = 1; db_name = c.name; ping_ok = some 1 }
unfolding check_mongo record_mongo_snapshot
check_mongo-recorded c m h = ground arith

check_mongo-stale :
    (c : MongoConnection) (m : Metrics) → (c.ready_state == 1) ≡ false → (check_mongo c m).1 ≡ m
unfolding check_mongo
check_mongo-stale c m h = ground arith

pong_response :
    (o : Option PingReply)
    → is_pong o ≡ true
    → (r : PingReply) × (o ≡ some r) × (r.response ≡ codes "PONG")
pong_response none h = cc
pong_response (some r) h = (r, refl, (same_text_iff r.response (codes "PONG")).0 h)

module _ {Client : Type 0} (d : Driver Client) where
  -- The answer does not depend on the metrics.
  ping-metrics :
      (s : Service Client) (m : Metrics) → (ping d (record s { metrics = m })).0 ≡ (ping d s).0
  unfolding ping ensure_connected connect_waiting replace_closed start_service ping_client
      record_status
  ping-metrics s m = ground arith

  -- A ping that answers is recorded; of the rest the record of the database is kept.
  ping-recorded :
      (s : Service Client) (r : PingReply)
      → (ping d s).0 ≡ some r
      → ((ping d s).1.metrics.redis_snapshot
          ≡ record { status = r.status; ping_response = some r.response })
  unfolding ping ensure_connected connect_waiting replace_closed start_service ping_client
      record_status record_redis_snapshot
  ping-recorded s r h = ground arith

  ping-mongo : (s : Service Client) → (ping d s).1.metrics.mongo_snapshot ≡ s.metrics.mongo_snapshot
  unfolding ping ensure_connected connect_waiting replace_closed start_service ping_client
      record_status record_redis_snapshot
  ping-mongo s = ground arith

  -- The client is neither closed nor waiting to be connected.
  abbrev pub is_open : Client → Bool
  is_open c =
      not (has_status d c (codes "end"))
      && not (has_status d c (codes "close"))
      && not (has_status d c (codes "wait"))

  ping-stale :
      (s : Service Client)
      → is_open s.client ≡ true
      → (ping d s).0 ≡ none
      → (ping d s).1.metrics ≡ s.metrics
  unfolding ping ensure_connected connect_waiting replace_closed ping_client
  ping-stale s h k = ground arith

  check-200 :
      (c : MongoConnection) (uri : Option Text) (s : Service Client)
      → ((check d c uri s).0 == 200)
        ≡ (mongo_answers c && is_pong (ping d s).0 && is_some (present uri))
  unfolding check get_health is_healthy check_redis check_config
  check-200 c uri s =
      ground (arith, check_mongo-up c s.metrics, ping-metrics s (check_mongo c s.metrics).1)

  -- The state of the service when Redis is asked.
  abbrev asked : MongoConnection → Service Client → Service Client
  asked c s = record s { metrics = (check_mongo c s.metrics).1 }

  check-state :
      (c : MongoConnection) (uri : Option Text) (s : Service Client)
      → (check d c uri s).1 ≡ (ping d (asked c s)).1
  unfolding check get_health check_redis
  check-state c uri s = refl

  check-shows :
      (c : MongoConnection) (uri : Option Text) (s : Service Client)
      → (check d c uri s).0 ≡ 200
      → ((check d c uri s).1.metrics.redis_snapshot.ping_response ≡ some (codes "PONG"))
        × ((check d c uri s).1.metrics.mongo_snapshot
            ≡ record { ready_state = 1; db_name = c.name; ping_ok = some 1 })
  check-shows c uri s h =
      let both = check-200 c uri s in
      let (r, e, pong) = pong_response (ping d s).0 (ground (arith, both, h)) in
      (
        ap (λ (t : Service Client). t.metrics.redis_snapshot.ping_response) (check-state c uri s)
            ∙ ap RedisSnapshot.ping_response
                (ping-recorded (asked c s) r (ping-metrics s (check_mongo c s.metrics).1 ∙ e))
            ∙ ap some pong,
        ap (λ (t : Service Client). t.metrics.mongo_snapshot) (check-state c uri s)
            ∙ ping-mongo (asked c s)
            ∙ check_mongo-recorded c s.metrics (ground (arith, both, h)),
      )

  check-stale :
      (c : MongoConnection) (uri : Option Text) (s : Service Client)
      → (is_open s.client ≡ true
          → (ping d s).0 ≡ none
          → ((check d c uri s).0 ≢ 200)
            × ((check d c uri s).1.metrics.redis_snapshot ≡ s.metrics.redis_snapshot))
        × ((c.ready_state == 1) ≡ false
            → ((check d c uri s).0 ≢ 200)
              × ((check d c uri s).1.metrics.mongo_snapshot ≡ s.metrics.mongo_snapshot))
  check-stale c uri s = (
    (λ open_ lost. (
      ground (arith, check-200 c uri s, lost),
      ap (λ (t : Service Client). t.metrics.redis_snapshot) (check-state c uri s)
          ∙ ap Metrics.redis_snapshot
              (ping-stale (asked c s) open_ (ping-metrics s (check_mongo c s.metrics).1 ∙ lost))
          ∙ check_mongo-redis c s.metrics,
    )),
    (λ off. (
      ground (arith, check-200 c uri s, off),
      ap (λ (t : Service Client). t.metrics.mongo_snapshot) (check-state c uri s)
          ∙ ping-mongo (asked c s)
          ∙ ap Metrics.mongo_snapshot (check_mongo-stale c s.metrics off),
    )),
  )

  -- `GET /health` answers 200 exactly if the database is connected and answers its ping with 1,
  -- Redis answers PONG, and `MONGO_URI` is configured and not empty. The metrics then show both
  -- pings as successful. If the client of Redis is neither closed nor waiting and its ping is
  -- rejected, or if the database is not connected, it does not answer 200, and the metrics go on
  -- showing what an earlier check found of Redis, or of the database.
  pub check_lem :
      (c : MongoConnection) (uri : Option Text) (s : Service Client)
      → (((check d c uri s).0 == 200)
          ≡ (mongo_answers c && is_pong (ping d s).0 && is_some (present uri)))
        × ((check d c uri s).0 ≡ 200
            → ((check d c uri s).1.metrics.redis_snapshot.ping_response ≡ some (codes "PONG"))
              × ((check d c uri s).1.metrics.mongo_snapshot
                  ≡ record { ready_state = 1; db_name = c.name; ping_ok = some 1 }))
        × (is_open s.client ≡ true
            → (ping d s).0 ≡ none
            → ((check d c uri s).0 ≢ 200)
              × ((check d c uri s).1.metrics.redis_snapshot ≡ s.metrics.redis_snapshot))
        × ((c.ready_state == 1) ≡ false
            → ((check d c uri s).0 ≢ 200)
              × ((check d c uri s).1.metrics.mongo_snapshot ≡ s.metrics.mongo_snapshot))
  check_lem c uri s =
      (check-200 c uri s, check-shows c uri s, (check-stale c uri s).0, (check-stale c uri s).1)
