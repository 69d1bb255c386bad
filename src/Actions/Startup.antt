-- ===== src/Actions/Startup.antt =====
-- actions/database/database.go, and `PushAppLogToMinIO` of actions/services/services.go. Contexts and
-- log messages are left out.
use stockic_feed_api.Common.{Bool, true, false, List, [], ◌∷◌, Option, none, some}
use stockic_feed_api.Common.State.{State, ◌>>=◌, ◌>>◌, pure}
use stockic_feed_api.Go.Text.{Bytes, codes}
use stockic_feed_api.Stores.Minio.{Minio, Clock}
use stockic_feed_api.Startup
use stockic_feed_api.Startup.{RedisOptions, Start, running, File}
use stockic_feed_api.Startup.Firebase
use stockic_feed_api.Startup.Firebase.{Once}

abbrev pub logfile : Bytes
logfile = codes "actions.log"

abbrev pub firebase_config_file : Bytes
firebase_config_file = codes "./secrets/stockic-b6c89-firebase-adminsdk-wr64l-a8e3bdf5e7.json"

abbrev pub stores : List Bytes
stores = codes "actions-app-logs" ∷ []

-- The variables that the start sets; `none` is a nil client.
pub record Config (C F : Type 0) : Type 0 where
  pub redis_api_cache : Option C
  pub redis_session_cache : Option C
  pub firebase_client : F

module _ {W : Type 0} (files : Bytes → State W File) (minio : Minio W) (clock : Clock W) where
  unfoldable pub upload_log_data_to_minio : Bytes → Bytes → State W Bool
  upload_log_data_to_minio = Startup.upload_log_data_to_minio files minio clock

  -- One round of the loop of `PushAppLogToMinIO`; an error is only logged.
  unfoldable pub push_app_log_to_minio : State W Bool
  push_app_log_to_minio = upload_log_data_to_minio (codes "actions-app-logs") logfile

-- `new_redis` and `ping` make and try a client of Redis, `new_minio` makes one of MinIO; `open_log` says
-- whether the log file could be opened, `load_env` is `godotenv.Load`, and `init_firebase` returns none where
-- it ends the process.
module _ {W C F : Type 0} (env : W → Bytes → Bytes) (new_redis : RedisOptions → C)
    (ping : C → State W Bool) (new_minio : Bytes → Bytes → Bytes → Option (Minio W))
    (open_log : State W Bool) (load_env : State W (Unit {0}))
    (init_firebase : State W (Option F)) where
  unfoldable pub redis_init : Bytes → Bytes → Bytes → State W (Option C)
  redis_init = Startup.redis_init env new_redis ping

  unfoldable pub minio_init : Bytes → Bytes → Bytes → List Bytes → State W Start
  minio_init = Startup.minio_init env new_minio

  unfoldable pub init_minio : State W Start
  init_minio =
      minio_init (codes "MINIO_ENDPOINT") (codes "MINIO_ACCESSKEY") (codes "MINIO_SECRETKEY") stores

  unfoldable pub init_redis_clients : State W (Option C × Option C)
  init_redis_clients = do
    redis_api_cache ←
        redis_init (codes "USERAPI_CACHING_ADDRESS") (codes "USERAPI_CACHING_DB")
          (codes "USERAPI_CACHING_PASSWORD")
    redis_session_cache ←
        redis_init (codes "NOTION_SESSION_REDIS_ADDRESS") (codes "NOTION_SESSION_REDIS_DB")
          (codes "NOTION_SESSION_REDIS_PASSWORD")
    pure (redis_api_cache, redis_session_cache)

  -- `none` is a process that has ended.
  after_minio : Config C F → Start → Option (Config C F)
  after_minio config running = some config
  after_minio config _ = none

  after_firebase : Option C × Option C → Option F → State W (Option (Config C F))
  unfolding after_minio
  after_firebase (redis_api_cache, redis_session_cache) none = pure none
  after_firebase (redis_api_cache, redis_session_cache) (some firebase_client) = do
    start ← init_minio
    pure (
        after_minio
          (record {
            redis_api_cache = redis_api_cache;
            redis_session_cache = redis_session_cache;
            firebase_client = firebase_client;
          })
          start)

  after_log : Bool → State W (Option (Config C F))
  unfolding after_firebase
  after_log false = pure none
  after_log true = do
    load_env
    clients ← init_redis_clients
    firebase ← init_firebase
    after_firebase clients firebase

  unfoldable pub initialize : State W (Option (Config C F))
  unfolding after_log
  initialize = do found ← open_log; after_log found

-- The start with the connection to Firebase; `some none` is the nil client. The goroutine that waits
-- for the end of `context.Background()` never goes on.
module _ {W C App Client : Type 0} (env : W → Bytes → Bytes) (new_redis : RedisOptions → C)
    (ping : C → State W Bool) (new_minio : Bytes → Bytes → Bytes → Option (Minio W))
    (open_log : State W Bool) (load_env : State W (Unit {0})) (once : Once W)
    (new_app : Bytes → State W (Option App)) (firestore : App → State W (Option Client)) where
  unfoldable pub initialize_firebase : Bytes → State W (Option (Option Client))
  initialize_firebase = Firebase.initialize_firebase once new_app firestore

  unfoldable pub init_firebase : State W (Option (Option Client))
  init_firebase = initialize_firebase firebase_config_file

  -- `init` of main.go
  unfoldable pub init : State W (Option (Config C (Option Client)))
  init = initialize env new_redis ping new_minio open_log load_env init_firebase
