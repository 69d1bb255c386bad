-- ===== src/FeedApi/Startup/Connected.antt =====
-- When feed-api has started, it has a client of Firestore.
use stockic_feed_api.Common.{◌≡◌, refl, sym, ap, ◌∙◌, Bool, true, false, Option, none, some}
use stockic_feed_api.Common.State.{State}
use stockic_feed_api.Go.Text.{Bytes, codes}
use stockic_feed_api.Stores.Minio.{Minio}
use stockic_feed_api.Startup
use stockic_feed_api.Startup.{RedisOptions, Start, running, exited, panicked}
use stockic_feed_api.Startup.Buckets.{IsBucketStore}
use stockic_feed_api.Startup.Firebase.{Once, initialize_firebase-connects}
use stockic_feed_api.FeedApi.Startup.{
  firebase_config_file, Config, redis_init, init_redis_clients, after_minio, after_firebase,
  after_log, initialize, init_firebase, init,
}
use stockic_feed_api.FeedApi.Startup.Ready.{initialize-HasBuckets}

module _ {W C F : Type 0} (env : W → Bytes → Bytes) (new_redis : RedisOptions → C)
    (ping : C → State W Bool) (new_minio : Bytes → Bytes → Bytes → Option (Minio W))
    (open_log : State W Bool) (load_env : State W (Unit {0}))
    (init_firebase : State W (Option F)) where
  -- The clients of a configuration are those that were made before.
  after_minio-client :
      (config config' : Config C F) (start : Start)
      → after_minio env new_redis ping new_minio open_log load_env init_firebase config start
        ≡ some config'
      → config'.firebase_client ≡ config.firebase_client
  unfolding after_minio
  after_minio-client config config' running e = cc
  after_minio-client config config' exited e = cc
  after_minio-client config config' panicked e = cc

  after_firebase-client :
      (clients : Option C × Option C × Option C) (o : Option F) (w : W) (config : Config C F)
      → (after_firebase env new_redis ping new_minio open_log load_env init_firebase clients o w).0
        ≡ some config
      → o ≡ some config.firebase_client
  unfolding after_firebase
  after_firebase-client clients none w config e = cc
  after_firebase-client clients (some firebase_client) w config e =
      ap some (sym (after_minio-client _ config _ e))

  module _ (done : W → Bool) (open_keeps : (w : W) → done (open_log w).1 ≡ done w)
      (env_keeps : (w : W) → done (load_env w).1 ≡ done w)
      (ping_keeps : (c : C) (w : W) → done (ping c w).1 ≡ done w) where
    init_redis_clients-done :
        (w : W)
        → done (init_redis_clients env new_redis ping new_minio open_log load_env init_firebase w).1
          ≡ done w
    unfolding init_redis_clients redis_init Startup.redis_init
    init_redis_clients-done w = rw (ping_keeps, ping_keeps, ping_keeps) refl

    -- The client of the configuration is what `init_firebase` returned.
    after_log-client :
        (found : Bool) (w : W) (config : Config C F)
        → (after_log env new_redis ping new_minio open_log load_env init_firebase found w).0
          ≡ some config
        → (v : W) × (done v ≡ done w) × ((init_firebase v).0 ≡ some config.firebase_client)
    unfolding after_log
    after_log-client false w config e = cc
    after_log-client true w config e = (
      _,
      init_redis_clients-done (load_env w).1 ∙ env_keeps w,
      after_firebase-client _ _ _ config e,
    )

    initialize-client :
        (w : W) (config : Config C F)
        → (initialize env new_redis ping new_minio open_log load_env init_firebase w).0
          ≡ some config
        → (v : W) × (done v ≡ done w) × ((init_firebase v).0 ≡ some config.firebase_client)
    unfolding initialize
    initialize-client w config e =
        let (v, same, called) = after_log-client (open_log w).0 (open_log w).1 config e in
        (v, same ∙ open_keeps w, called)

module _ {W C App Client : Type 0} (minio : Minio W) (buckets : W → Bytes → Bool)
    (store : IsBucketStore minio buckets) (env : W → Bytes → Bytes) (new_redis : RedisOptions → C)
    (ping : C → State W Bool) (new_minio : Bytes → Bytes → Bytes → Option (Minio W))
    (open_log : State W Bool) (load_env : State W (Unit {0})) (once : Once W)
    (new_app : Bytes → State W (Option App)) (firestore : App → State W (Option Client))
    (reaches : (e a s : Bytes) → new_minio e a s ≡ some minio)
    (open_keeps : (w : W) → once.done (open_log w).1 ≡ once.done w)
    (env_keeps : (w : W) → once.done (load_env w).1 ≡ once.done w)
    (ping_keeps : (c : C) (w : W) → once.done (ping c w).1 ≡ once.done w) where
  -- If the first start of feed-api ends with a configuration, and not with the process, its client of
  -- Firestore is not nil, and the buckets user-logs and feed-api-app-logs are there, as long as MinIO
  -- can be reached and only the connection to Firebase marks its `sync.Once`.
  pub init-IsReady :
      (w : W) (config : Config C (Option Client))
      → once.done w ≡ false
      → (init env new_redis ping new_minio open_log load_env once new_app firestore w).0
        ≡ some config
      → ((client : Client) × (config.firebase_client ≡ some client))
        × (buckets
              (init env new_redis ping new_minio open_log load_env once new_app firestore w).1
              (codes "user-logs")
            ≡ true)
        × (buckets
              (init env new_redis ping new_minio open_log load_env once new_app firestore w).1
              (codes "feed-api-app-logs")
            ≡ true)
  unfolding init init_firebase
  init-IsReady w config first e =
      let (v, same, called) =
        initialize-client env new_redis ping new_minio open_log load_env _ once.done open_keeps
          env_keeps ping_keeps w config e in
      let (logs, (app_logs, _)) =
        initialize-HasBuckets minio buckets store env new_redis ping new_minio open_log load_env _
          reaches w config e in
      (
        initialize_firebase-connects once new_app firestore firebase_config_file v
            config.firebase_client (same ∙ first) called,
        logs,
        app_logs,
      )
