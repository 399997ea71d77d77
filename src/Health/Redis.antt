-- ===== src/Health/Redis.antt =====
-- common/redis/redis.service.ts: the client of the service and what it records of it. The client of
-- ioredis is a parameter: a call on it answers, or is rejected, and leaves the client changed.
use ubuy_backend.Base.{Bool, true, false, ◌||◌, not, Option, none, some, if◌then◌else◌}
use ubuy_backend.Texts.{Text, codes, same_text}
use ubuy_backend.Metrics.{Metrics, record_redis_snapshot}

-- `new Redis(…)`, `status`, `connect`, `ping`, `quit` and `disconnect`; a call that is rejected is
-- false or `none`.
pub record Driver (Client : Type 0) : Type 0 where
  pub create_client : Client
  pub status : Client → Text
  pub connect : Client → Bool × Client
  pub ping : Client → Option Text × Client
  pub quit : Client → Bool × Client
  pub disconnect : Client → Client

pub record Service (Client : Type 0) : Type 0 where
  pub client : Client
  pub metrics : Metrics

pub record PingReply : Type 0 where
  pub response : Text
  pub status : Text

module _ {Client : Type 0} (d : Driver Client) where
  abbrev pub has_status : Client → Text → Bool
  has_status c name = same_text (d.status c) name

  unfoldable pub record_status : Client → Option Text → Metrics → Metrics
  unfolding record_redis_snapshot
  record_status c response m =
      record_redis_snapshot (record { status = d.status c; ping_response = response }) m

  -- The constructor.
  unfoldable pub start_service : Metrics → Service Client
  unfolding record_status
  start_service m = record {
    client = d.create_client;
    metrics = record_status d.create_client none m;
  }

  -- A client that was closed is replaced.
  unfoldable pub replace_closed : Service Client → Service Client
  unfolding record_status same_text
  replace_closed s =
      if has_status s.client (codes "end") || has_status s.client (codes "close")
      then start_service s.metrics
      else s

  -- A client that waits is connected; `false` is the rejection.
  unfoldable pub connect_waiting : Service Client → Bool × Service Client
  unfolding record_status same_text
  connect_waiting s =
      let (connected, c) = d.connect s.client in
      if has_status s.client (codes "wait")
      then if connected
        then (true, record { client = c; metrics = record_status c none s.metrics })
        else (false, record s { client = c })
      else (true, s)

  unfoldable pub ensure_connected : Service Client → Bool × Service Client
  unfolding replace_closed connect_waiting start_service
  ensure_connected s = connect_waiting (replace_closed s)

  -- The call of `ping` on a client, and the record of its answer.
  unfoldable pub ping_client : Service Client → Option PingReply × Service Client
  unfolding record_status
  ping_client s =
      let (response, c) = d.ping s.client in
      elim response [
        | none ↦ (none, record s { client = c })
        | some text ↦ (
          some (record { response = text; status = d.status c }),
          record { client = c; metrics = record_status c (some text) s.metrics },
        )
      ]

  unfoldable pub ping : Service Client → Option PingReply × Service Client
  unfolding ensure_connected ping_client
  ping s = let (connected, t) = ensure_connected s in if connected then ping_client t else (none, t)

  -- `onApplicationShutdown`
  unfoldable pub on_application_shutdown : Service Client → Service Client
  unfolding same_text
  on_application_shutdown s =
      let (stopped, c) = d.quit s.client in
      if has_status s.client (codes "ready") || has_status s.client (codes "connect")
      then (if stopped then record s { client = c } else record s { client = d.disconnect c })
      else if not (has_status s.client (codes "end"))
      then record s { client = d.disconnect s.client }
      else s
