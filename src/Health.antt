-- ===== src/Health.antt =====
-- modules/health/health.service.ts and modules/health/health.controller.ts. The connection of
-- mongoose is a parameter. Details and messages of the checks are left out, and with them the
-- numbers that `process` tells; the checks of the process and of its memory are always up.
pub mod Redis
pub mod Probed
use ubuy_backend.Base.{
  ℕ, Bool, true, false, ◌&&◌, not, Option, none, some, ◌==◌, is_some, if◌then◌else◌,
}
use ubuy_backend.Texts.{Text, codes, same_text, present}
use ubuy_backend.Metrics.{Metrics, MongoSnapshot, record_mongo_snapshot}
use ubuy_backend.Health.Redis.{Driver, Service, PingReply, ping}

pub data HealthState : Type 0 where
  up down : HealthState

-- The connection: its state, whether it has a `db` handle, its name, and the `ok` that the ping of
-- its `db` answers, `none` where the ping is rejected.
pub record MongoConnection : Type 0 where
  pub ready_state : ℕ
  pub has_db : Bool
  pub name : Option Text
  pub ping_ok : Option ℕ

pub record Checks : Type 0 where
  pub backend : HealthState
  pub mongo : HealthState
  pub redis : HealthState
  pub config : HealthState
  pub memory : HealthState

abbrev pub is_up : HealthState → Bool
is_up up = true
is_up down = false

abbrev pub up_if : Bool → HealthState
up_if true = up
up_if false = down

abbrev pub snapshot_of : MongoConnection → ℕ → MongoSnapshot
snapshot_of c ok = record { ready_state = c.ready_state; db_name = c.name; ping_ok = some ok }

unfoldable pub check_mongo : MongoConnection → Metrics → HealthState × Metrics
unfolding record_mongo_snapshot
check_mongo c m =
    if not (c.ready_state == 1)
    then (down, m)
    else if not c.has_db
    then (down, m)
    else elim c.ping_ok [
      | none ↦ (down, record_mongo_snapshot (snapshot_of c 0) m)
      | some ok ↦ (up_if (ok == 1), record_mongo_snapshot (snapshot_of c ok) m)
    ]

-- `pingResult.response === 'PONG'`; a rejected ping is caught.
abbrev pub state_of_ping : Option PingReply → HealthState
state_of_ping none = down
state_of_ping (some reply) = up_if (same_text reply.response (codes "PONG"))

-- `MONGO_URI`, the one key that has to be there and not empty.
unfoldable pub check_config : Option Text → HealthState
check_config mongo_uri = up_if (is_some (present mongo_uri))

unfoldable pub is_healthy : Checks → Bool
is_healthy c = is_up c.backend && is_up c.mongo && is_up c.redis && is_up c.config && is_up c.memory

module _ {Client : Type 0} (d : Driver Client) where
  unfoldable pub check_redis : Service Client → HealthState × Service Client
  unfolding ping same_text
  check_redis s = let (reply, t) = ping d s in (state_of_ping reply, t)

  unfoldable pub get_health :
      MongoConnection → (mongo_uri : Option Text) → Service Client → Checks × Service Client
  unfolding check_mongo check_redis check_config
  get_health c mongo_uri s =
      let (mongo, m) = check_mongo c s.metrics in
      let (redis, t) = check_redis (record s { metrics = m }) in
      (
        record {
          backend = up;
          mongo = mongo;
          redis = redis;
          config = check_config mongo_uri;
          memory = up;
        },
        t,
      )

  -- `HealthController.check`: 200 or 503.
  unfoldable pub check :
      MongoConnection → (mongo_uri : Option Text) → Service Client → ℕ × Service Client
  unfolding get_health is_healthy
  check c mongo_uri s =
      let (checks, t) = get_health c mongo_uri s in ((if is_healthy checks then 200 else 503), t)
