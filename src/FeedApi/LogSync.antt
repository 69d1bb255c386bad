-- ===== src/FeedApi/LogSync.antt =====
-- `SyncLogRedisToMinIO` of feed-api/services/services.go: one round of its endless loop over a ticker.
pub mod Keys
pub mod Groups
pub mod Users
pub mod Stored
pub mod Orders
use stockic_feed_api.Common.{
  ℕ, Bool, true, false, List, [], ◌∷◌, ◌++◌, Option, none, some, ltb, length, get_elem?,
  if◌then◌else◌,
}
use stockic_feed_api.Common
use stockic_feed_api.Common.State.{State, ◌>>=◌, ◌>>◌, pure}
use stockic_feed_api.Go.Text.{Bytes, codes, str_eq, split, trim_prefix}
use stockic_feed_api.Stores.Minio.{Minio, Clock}
use stockic_feed_api.Stores.Redis.{Redis, Reply, value}

pub record LogData : Type 0 where
  pub news_id : Bytes
  pub access_count : Bytes
  pub last_synced : Bytes

-- `map[string][]…`: the entries, in the order in which a `range` loop visits them
abbrev pub Grouped : Type 0
Grouped = List (Bytes × List LogData)

-- `groupedLogs[apiKey] = append(groupedLogs[apiKey], logData)`
unfoldable pub add_log : Bytes → LogData → Grouped → Grouped
add_log api_key d [] = (api_key, d ∷ []) ∷ []
add_log api_key d ((k, ds) ∷ g) =
    if str_eq k api_key then (k, ds ++ d ∷ []) ∷ g else (k, ds) ∷ add_log api_key d g

-- The news id and the API key that a key of the log names; `none` is an invalid key.
key_parts : List Bytes → Option (Bytes × Bytes)
key_parts parts =
    if ltb (length parts) 4
    then none
    else Common.◌>>=◌ (get_elem? parts 2) λ news.
      Common.◌>>=◌ (get_elem? parts 3)
        λ user. some (trim_prefix news (codes "news:"), trim_prefix user (codes "user:"))

unfoldable pub parse_key : Bytes → Option (Bytes × Bytes)
unfolding key_parts
parse_key key = key_parts (split key b'/')

module _ {W : Type 0} (log : Redis W) (clock : Clock W) where
  -- after `GetDel`
  unfoldable pub record_count : Bytes × Bytes → Grouped → Reply → State W Grouped
  record_count (news_id, api_key) g (value count) = do
    t ← clock.now
    pure (
        add_log api_key
          (record { news_id = news_id; access_count = count; last_synced = clock.rfc3339 t }) g)
  record_count _ g _ = pure g

  unfoldable pub take_count : Bytes → Grouped → Option (Bytes × Bytes) → State W Grouped
  unfolding record_count
  take_count key g none = pure g
  take_count key g (some ids) = do reply ← log.get_del key; record_count ids g reply

  unfoldable pub collect : List Bytes → Grouped → State W Grouped
  collect [] g = pure g
  collect (key ∷ keys) g = do g' ← take_count key g (parse_key key); collect keys g'

module _ {W : Type 0} (minio : Minio W) (clock : Clock W)
    (marshal : List LogData → Option Bytes) where
  unfoldable pub object_name : Bytes → Bytes → Bytes
  object_name api_key stamp = api_key ++ (codes "/detail-log-" ++ (stamp ++ codes ".json"))

  -- an error is only logged, and the loop goes on
  unfoldable pub put_logs : Bytes → ℕ → Option Bytes → State W (Unit {0})
  unfolding object_name
  put_logs api_key t none = pure tt
  put_logs api_key t (some text) = do
    minio.put_object (codes "user-logs") (object_name api_key (clock.file_stamp t)) text
    pure tt

  unfoldable pub upload : Grouped → State W (Unit {0})
  unfolding put_logs
  upload [] = pure tt
  upload ((api_key, logs) ∷ g) = do t ← clock.now; put_logs api_key t (marshal logs); upload g

-- `visit` is the order in which the loop over the map visits its entries.
module _ {W : Type 0} (log : Redis W) (minio : Minio W) (clock : Clock W)
    (marshal : List LogData → Option Bytes) (visit : Grouped → Grouped) where
  unfoldable pub after_keys : Option (List Bytes) → State W (Unit {0})
  after_keys none = pure tt
  after_keys (some keys) = do g ← collect log clock keys []; upload minio clock marshal (visit g)

  unfoldable pub after_ping : Bool → State W (Unit {0})
  unfolding after_keys
  after_ping false = pure tt
  after_ping true = do keys ← log.keys (codes "endpoint:/detail/news:*"); after_keys keys

  unfoldable pub sync_log_redis_to_minio : State W (Unit {0})
  unfolding after_ping
  sync_log_redis_to_minio = do connected ← log.ping; after_ping connected
