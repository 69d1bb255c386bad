-- ===== src/LogPusher/Startup.antt =====
-- log-redis-pusher/database/database.go, and `PushAppLogToMinIO` of log-redis-pusher/services/services.go.
-- Contexts and log messages are left out.
use stockic_feed_api.Common.{Bool, true, false, List, [], ◌∷◌, Option, none, some}
use stockic_feed_api.Common.State.{State, ◌>>=◌, ◌>>◌, pure}
use stockic_feed_api.Go.Text.{Bytes, codes}
use stockic_feed_api.Stores.Minio.{Minio, Clock}
use stockic_feed_api.Startup
use stockic_feed_api.Startup.{RedisOptions, Start, running, File}

abbrev pub logfile : Bytes
logfile = codes "log-redis-pusher.log"

abbrev pub stores : List Bytes
stores = codes "user-logs" ∷ codes "actions-app-logs" ∷ []

-- The variables that the start sets; `none` is a nil client.
pub record Config (C : Type 0) : Type 0 where
  pub redis_log : Option C

module _ {W : Type 0} (files : Bytes → State W File) (minio : Minio W) (clock : Clock W) where
  unfoldable pub upload_log_data_to_minio : Bytes → Bytes → State W Bool
  upload_log_data_to_minio = Startup.upload_log_data_to_minio files minio clock

  -- One round of the loop of `PushAppLogToMinIO`; an error is only logged.
  unfoldable pub push_app_log_to_minio : State W Bool
  push_app_log_to_minio = upload_log_data_to_minio (codes "actions-app-logs") logfile

-- `new_redis` and `ping` make and try a client of Redis, `new_minio` makes one of MinIO; `open_log` says
-- whether the log file could be opened, `load_env` is `godotenv.Load`.
module _ {W C : Type 0} (env : W → Bytes → Bytes) (new_redis : RedisOptions → C)
    (ping : C → State W Bool) (new_minio : Bytes → Bytes → Bytes → Option (Minio W))
    (open_log : State W Bool) (load_env : State W (Unit {0})) where
  unfoldable pub redis_init : Bytes → Bytes → Bytes → State W (Option C)
  redis_init = Startup.redis_init env new_redis ping

  unfoldable pub minio_init : Bytes → Bytes → Bytes → List Bytes → State W Start
  minio_init = Startup.minio_init env new_minio

  unfoldable pub init_minio : State W Start
  init_minio =
      minio_init (codes "MINIO_ENDPOINT") (codes "MINIO_ACCESSKEY") (codes "MINIO_SECRETKEY") stores

  unfoldable pub init_redis_clients : State W (Option C)
  init_redis_clients =
      redis_init (codes "LOGREDIS_ADDRESS") (codes "LOGREDIS_DB") (codes "LOGREDIS_PASSWORD")

  -- `none` is a process that has ended.
  after_minio : Config C → Start → Option (Config C)
  after_minio config running = some config
  after_minio config _ = none

  after_log : Bool → State W (Option (Config C))
  unfolding after_minio
  after_log false = pure none
  after_log true = do
    load_env
    redis_log ← init_redis_clients
    start ← init_minio
    pure (after_minio (record { redis_log = redis_log }) start)

  unfoldable pub initialize : State W (Option (Config C))
  unfolding after_log
  initialize = do found ← open_log; after_log found

  -- `init` of main.go
  unfoldable pub init : State W (Option (Config C))
  init = initialize
