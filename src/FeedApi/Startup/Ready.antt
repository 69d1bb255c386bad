-- ===== src/FeedApi/Startup/Ready.antt =====
-- When feed-api has started, the buckets that it writes to are there.
use stockic_feed_api.Common.{◌≡◌, refl, Bool, true, false, Option, none, some, All}
use stockic_feed_api.Common.State.{State}
use stockic_feed_api.Go.Text.{Bytes}
use stockic_feed_api.Stores.Minio.{Minio}
use stockic_feed_api.Startup.{RedisOptions, Start, running, exited, panicked}
use stockic_feed_api.Startup.Buckets.{IsBucketStore, minio_init-creates}
use stockic_feed_api.FeedApi.Startup.{
  stores, Config, minio_init, init_minio, after_minio, after_firebase, after_log, initialize,
}

module _ {W C F : Type 0} (minio : Minio W) (buckets : W → Bytes → Bool)
    (store : IsBucketStore minio buckets) (env : W → Bytes → Bytes) (new_redis : RedisOptions → C)
    (ping : C → State W Bool) (new_minio : Bytes → Bytes → Bytes → Option (Minio W))
    (open_log : State W Bool) (load_env : State W (Unit {0})) (init_firebase : State W (Option F))
    (reaches : (e a s : Bytes) → new_minio e a s ≡ some minio) where
  -- A start that has ended with a configuration has all buckets.
  abbrev pub IsReady : Option (Config C F) × W → Type 0
  IsReady (o, w) = (config : Config C F) → o ≡ some config → All (λ b. buckets w b ≡ true) stores

  after_minio-running :
      (config config' : Config C F) (start : Start)
      → after_minio env new_redis ping new_minio open_log load_env init_firebase config start
        ≡ some config'
      → start ≡ running
  unfolding after_minio
  after_minio-running config config' running e = refl
  after_minio-running config config' exited e = cc
  after_minio-running config config' panicked e = cc

  after_firebase-IsReady :
      (clients : Option C × Option C × Option C) (o : Option F) (w : W)
      → IsReady
          (after_firebase env new_redis ping new_minio open_log load_env init_firebase clients o w)
  unfolding after_firebase init_minio minio_init
  after_firebase-IsReady clients none w config e = cc
  after_firebase-IsReady clients (some firebase_client) w config e =
      minio_init-creates minio buckets store env new_minio _ _ _ stores w (reaches _ _ _)
        (after_minio-running _ config _ e)

  after_log-IsReady :
      (b : Bool) (w : W)
      → IsReady (after_log env new_redis ping new_minio open_log load_env init_firebase b w)
  unfolding after_log
  after_log-IsReady false w config e = cc
  after_log-IsReady true w config e = after_firebase-IsReady _ _ _ config e

  -- If the start of feed-api ends with a configuration, and not with the process, every bucket that it
  -- writes to is there, as long as MinIO can be reached.
  pub initialize-HasBuckets :
      (w : W) (config : Config C F)
      → (initialize env new_redis ping new_minio open_log load_env init_firebase w).0 ≡ some config
      → All
          (λ b.
            buckets (initialize env new_redis ping new_minio open_log load_env init_firebase w).1 b
            ≡ true)
          stores
  unfolding initialize
  initialize-HasBuckets w config e = after_log-IsReady _ _ config e
