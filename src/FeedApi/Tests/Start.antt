-- ===== src/FeedApi/Tests/Start.antt =====
-- The start of feed-api with a MinIO that has one of the buckets.
use stockic_feed_api.Common.{
  ◌≡◌, refl, Bool, true, false, ◌||◌, List, [], ◌∷◌, Option, none, some, arith,
}
use stockic_feed_api.Common.State.{State}
use stockic_feed_api.Go.Text.{Bytes, codes, str_eq}
use stockic_feed_api.Go.Text.Laws.{str_eq_refl}
use stockic_feed_api.Stores.Minio.{Minio}
use stockic_feed_api.Startup
use stockic_feed_api.Startup.{RedisOptions, running, redis_options, init_buckets}
use stockic_feed_api.Startup.Buckets.{IsBucketStore}
use stockic_feed_api.Startup.Firebase.{Once, initialize_firebase}
use stockic_feed_api.FeedApi.Startup.{
  Config, redis_init, init_redis_clients, minio_init, init_minio, initialize, init_firebase, init,
  firebase_config_file,
}
use stockic_feed_api.FeedApi.Startup.Connected.{init-IsReady}

abbrev World : Type 0
World = List Bytes

abbrev has : World → Bytes → Bool
has [] b = false
has (c ∷ w) b = str_eq c b || has w b

abbrev minio : Minio World
minio = record {
  put_object = λ b n d w. (true, w);
  bucket_exists = λ b w. ((has w b, true), w);
  make_bucket = λ b w. (true, b ∷ w);
}

minio-IsBucketStore : IsBucketStore minio has
minio-IsBucketStore = record {
  exists_reads = λ b w e. e;
  exists_keeps = λ b w. refl;
  make_makes = λ b w e. rw str_eq_refl refl;
  make_keeps = λ b k w e. ground (arith, e);
}

abbrev env : World → Bytes → Bytes
env w name = []

-- The default address answers.
abbrev ping : Bytes → State World Bool
ping addr w = (str_eq addr (codes "localhost:6379"), w)

-- The mark of the connection to Firebase is an entry of the world.
abbrev once : Once World
once = record { done = λ w. has w (codes "firebase"); mark = λ w. codes "firebase" ∷ w }

abbrev connected : Config Bytes (Option Bytes)
connected = record {
  redis_api_cache = some (codes "localhost:6379");
  redis_news_cache = some (codes "localhost:6379");
  redis_log = some (codes "localhost:6379");
  firebase_client = some firebase_config_file;
}

abbrev start : State World (Option (Config Bytes (Option Bytes)))
start =
    init env (λ o. o.addr) ping (λ e a s. some minio) (λ w. (true, w)) (λ w. (tt, w)) once
      (λ path w. (some path, w)) (λ app w. (some app, w))

init-IsReady_example :
    ((client : Bytes) × (connected.firebase_client ≡ some client))
    × (has (start (codes "user-logs" ∷ [])).1 (codes "user-logs") ≡ true)
    × (has (start (codes "user-logs" ∷ [])).1 (codes "feed-api-app-logs") ≡ true)
unfolding init initialize init_firebase initialize_firebase init_redis_clients redis_init
    Startup.redis_init redis_options init_minio minio_init Startup.minio_init init_buckets str_eq
init-IsReady_example =
    init-IsReady minio has minio-IsBucketStore env (λ o. o.addr) ping (λ e a s. some minio)
      (λ w. (true, w)) (λ w. (tt, w)) once (λ path w. (some path, w)) (λ app w. (some app, w))
      (λ e a s. refl) (λ w. refl) (λ w. refl) (λ c w. refl) (codes "user-logs" ∷ []) connected refl
      refl

-- A start without any Redis server goes on with nil clients.
abbrev no_clients : Config Bytes Bool
no_clients = record {
  redis_api_cache = none;
  redis_news_cache = none;
  redis_log = none;
  firebase_client = true;
}

starts_without_redis :
    (initialize env
      (λ o. o.addr)
      (λ c w. (false, w))
      (λ e a s. some minio)
      (λ w. (true, w))
      (λ w. (tt, w))
      (λ w. (some true, w))
      []).0
    ≡ some no_clients
unfolding initialize init_redis_clients redis_init Startup.redis_init init_minio minio_init
    Startup.minio_init init_buckets str_eq
starts_without_redis = refl
