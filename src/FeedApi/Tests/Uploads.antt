-- ===== src/FeedApi/Tests/Uploads.antt =====
-- A round of the synchronisation on a world that holds counters and objects.
use mathlib.Core.List.Permᴰ
use stockic_feed_api.Common.{
  ◌≡◌, ◌≢◌, refl, true, List, [], ◌∷◌, Option, some, Bool-cases, inl, inr,
}
use stockic_feed_api.Go.Text.{Bytes, codes, split, str_eq, trim_prefix}
use stockic_feed_api.Go.Text.Laws.{str_eq→eq, str_eq_refl}
use stockic_feed_api.Stores.Minio.{Minio, Clock}
use stockic_feed_api.Stores.Redis.{Redis}
use stockic_feed_api.FeedApi.LogSync.{LogData, parse_key, sync_log_redis_to_minio}
use stockic_feed_api.FeedApi.LogSync.Groups.{reads, for_user}
use stockic_feed_api.FeedApi.LogSync.Stored.{
  IsObjectStore, HasLogs, sync_log_redis_to_minio-HasLogs,
}
use stockic_feed_api.FeedApi.Tests.Stores.{Memory, at, reply_of}

abbrev counter : Bytes
counter = codes "endpoint:/detail/news:7f/user:u1"

abbrev log : Redis Memory
log = record {
  ping = λ m. (true, m);
  get = λ k m. (reply_of (at m k), m);
  set = λ k v ttl m. (true, (k, v) ∷ m);
  exists = λ k m. (0, m);
  incr = λ k m. (true, m);
  keys = λ p m. (some (counter ∷ []), m);
  get_del = λ k m. (reply_of (at m k), (k, []) ∷ m);
}

abbrev minio : Minio Memory
minio = record {
  put_object = λ b n d m. (true, (n, d) ∷ m);
  bucket_exists = λ b m. ((true, true), m);
  make_bucket = λ b m. (true, m);
}

abbrev clock : Clock Memory
clock = record {
  now = λ m. (0, m);
  rfc3339 = λ t. codes "T";
  file_stamp = λ t. codes "T";
  log_stamp = λ t. [];
  month = λ t. [];
  local_rfc3339 = λ t. [];
  local_file_stamp = λ t. [];
  today = λ t. [];
  yesterday = λ t. [];
}

abbrev marshal : List LogData → Option Bytes
marshal logs = some (codes "J")

abbrev objects : Memory → Bytes → Bytes → Option Bytes
objects m b n = at m n

at-others : (n d k : Bytes) (m : Memory) → n ≢ k → at ((n, d) ∷ m) k ≡ at m k
at-others n d k m other = elim (Bool-cases (str_eq n k)) [
  | inl same ↦ absurd (other (str_eq→eq n k same))
  | inr apart ↦ rw apart refl
]

minio-IsObjectStore : IsObjectStore minio objects
minio-IsObjectStore = record {
  put_stores = λ b n d m e. rw str_eq_refl refl;
  put_others = λ b n d k m other. at-others n d k m other;
}

abbrev counted : Memory
counted = (counter, codes "3") ∷ []

abbrev entry : LogData
entry = record { news_id = codes "7f"; access_count = codes "3"; last_synced = codes "T" }

sync_log_redis_to_minio-HasLogs_example :
    HasLogs log minio clock marshal objects minio-IsObjectStore
      (λ m. refl)
      (λ b n d m. refl)
      (codes "u1")
      (codes "J")
      (sync_log_redis_to_minio log minio clock marshal (λ g. g) counted).1
unfolding reads for_user parse_key split trim_prefix str_eq
sync_log_redis_to_minio-HasLogs_example =
    sync_log_redis_to_minio-HasLogs log minio clock marshal objects minio-IsObjectStore (λ m. refl)
      (λ b n d m. refl) (λ g. g) Permᴰ.refl counted (counter ∷ []) (codes "u1") (codes "J") entry []
      refl refl refl refl
