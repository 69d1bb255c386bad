-- ===== src/FeedCurator/Storage.antt =====
-- The archives in MinIO of feed-curator/database/database.go, and `StoreSummarizedRedis` of
-- feed-curator/summarizer/summarizer.go. Maps are the lists of their entries.
use stockic_feed_api.Common.{Bool, true, false, List, ◌++◌, Option, none, some, if◌then◌else◌}
use stockic_feed_api.Common.State.{State, ◌>>=◌, pure}
use stockic_feed_api.Go.Process.{Ending, returned, exited}
use stockic_feed_api.Go.Text.{Bytes, codes}
use stockic_feed_api.Stores.Minio.{Minio, Clock}
use stockic_feed_api.Stores.Redis.{Redis}
use stockic_feed_api.FeedCurator.Models.{ApiResponse, SummarizedResponse}

-- The map that is archived, with the values of its keys "time" and "news-data".
pub record Payload (A : Type 0) : Type 0 where
  pub time : Bytes
  pub news_data : List (Bytes × A)

unfoldable pub archive_name : Bytes → Bytes → Bytes
archive_name kind stamp = kind ++ (stamp ++ codes ".json")

-- What the two uploads share: `kind` is the start of the object's name.
module _ {W A : Type 0} (minio : Minio W) (clock : Clock W) (marshal : Payload A → Option Bytes)
    (kind : Bytes) where
  unfoldable pub put_archive : Bytes → Option Bytes → State W Bool
  put_archive bucket none = pure false
  put_archive bucket (some text) = do
    t ← clock.now
    minio.put_object bucket (archive_name kind (clock.local_file_stamp t)) text

  unfoldable pub archive : List (Bytes × A) → Bytes → State W Bool
  archive news bucket = do
    t ← clock.now
    put_archive bucket (marshal (record { time = clock.local_rfc3339 t; news_data = news }))

module _ {W : Type 0} (minio : Minio W) (clock : Clock W) where
  unfoldable pub upload_news_api_response_data_to_minio :
      (Payload ApiResponse → Option Bytes) → List (Bytes × ApiResponse) → Bytes → State W Bool
  upload_news_api_response_data_to_minio marshal = archive minio clock marshal (codes "raw-news-")

  unfoldable pub upload_news_api_summarized_data_to_minio :
      (Payload SummarizedResponse → Option Bytes)
      → List (Bytes × SummarizedResponse)
      → Bytes
      → State W Bool
  upload_news_api_summarized_data_to_minio marshal =
      archive minio clock marshal (codes "summarized-news-")

module _ {W : Type 0} (fresh_news : Redis W)
    (marshal : List (Bytes × SummarizedResponse) → Option Bytes) where
  unfoldable pub set_news : Bytes → Option Bytes → State W Ending
  set_news redis_key none = pure (returned false)
  set_news redis_key (some text) = do
    stored ← fresh_news.set redis_key text 0
    pure (if stored then returned true else exited)

  unfoldable pub store_summarized_redis : Bytes → List (Bytes × SummarizedResponse) → State W Ending
  store_summarized_redis redis_key news = set_news redis_key (marshal news)
