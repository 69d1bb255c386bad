-- ===== src/LogPusher.antt =====
-- `SyncLogRedisToMinIO` of log-redis-pusher/services/services.go: one round of its loop over a ticker.
-- The body of the loop has the text of feed-api's, so the definition there serves here too.
pub mod Startup
pub mod Shared
pub mod Lost
mod Tests
use stockic_feed_api.Common.{List, Option}
use stockic_feed_api.Common.State.{State}
use stockic_feed_api.Go.Text.{Bytes}
use stockic_feed_api.Stores.Minio.{Minio, Clock}
use stockic_feed_api.Stores.Redis.{Redis}
use stockic_feed_api.FeedApi.LogSync
use stockic_feed_api.FeedApi.LogSync.{LogData, Grouped}

module _ {W : Type 0} (log : Redis W) (minio : Minio W) (clock : Clock W)
    (marshal : List LogData → Option Bytes) (visit : Grouped → Grouped) where
  unfoldable pub sync_log_redis_to_minio : State W (Unit {0})
  sync_log_redis_to_minio = LogSync.sync_log_redis_to_minio log minio clock marshal visit
