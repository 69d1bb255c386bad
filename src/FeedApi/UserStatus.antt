-- ===== src/FeedApi/UserStatus.antt =====
-- `ValidateUserAPIKey`, `GetCachedUserStatus` and `CacheUserStatus` of feed-api/services/services.go.
-- Log messages are left out.
pub mod Backends
pub mod Coherence
pub mod Untouched
pub mod Known
use stockic_feed_api.Common.{
  ℕ, ◌*◌, ◌^◌, Bool, true, false, not, List, ◌++◌, Option, none, some, if◌then◌else◌,
}
use stockic_feed_api.Common.State.{State, ◌>>=◌, ◌>>◌, pure}
use stockic_feed_api.Go.Text.{Bytes, codes}
use stockic_feed_api.Stores.Codec.{Codec}
use stockic_feed_api.Stores.Firestore.{
  Value, Values, bool, Document, field, Fetched, not_found, failed, snapshot, Firestore,
}
use stockic_feed_api.Stores.Redis.{Redis, Reply, value}
use stockic_feed_api.FeedApi.Models.{UserStatus}

-- 24 hours in nanoseconds (feed-api/config/config.go)
abbrev pub api_key_cache_expiration : ℕ
api_key_cache_expiration = 24 * 3600 * 10 ^ 9

-- `fmt.Sprintf("apikey:%s", apiKey)`
unfoldable pub cache_key : Bytes → Bytes
cache_key api_key = codes "apikey:" ++ api_key

-- `data["premium-status"].(bool)`
bool_of : Option Value → Option Bool
bool_of (some (bool b)) = some b
bool_of _ = none

unfoldable pub premium_status : Document → Option Bool
unfolding bool_of
premium_status d = bool_of (field (codes "premium-status") d)

abbrev pub status : Bool → Bool → UserStatus
status e p = record { exists = e; premium = p }

module _ {W : Type 0} (cache : Redis W) (db : Firestore W) (json : Codec UserStatus) where
  unfoldable pub read_reply : Reply → Option UserStatus
  read_reply (value v) = json.unmarshal v
  read_reply _ = none

  unfoldable pub get_cached_user_status : Bytes → State W (Option UserStatus)
  unfolding read_reply
  get_cached_user_status api_key = do
    cache.ping
    reply ← cache.get (cache_key api_key)
    pure (read_reply reply)

  unfoldable pub store_status : Bytes → Option Bytes → State W Bool
  store_status api_key none = pure false
  store_status api_key (some text) = cache.set (cache_key api_key) text api_key_cache_expiration

  unfoldable pub cache_user_status : Bytes → UserStatus → State W Bool
  unfolding store_status
  cache_user_status api_key s = do cache.ping; store_status api_key (json.marshal s)

  -- an error of the cache is only logged
  remember : Bytes → Bool → Bool → State W (Bool × Bool)
  remember api_key e p = do cache_user_status api_key (status e p); pure (e, p)

  remember_premium : Bytes → Option Bool → State W (Bool × Bool)
  unfolding remember
  remember_premium api_key none = remember api_key true false
  remember_premium api_key (some p) = remember api_key true p

  after_fetch : Bytes → Fetched → State W (Bool × Bool)
  unfolding remember_premium
  after_fetch api_key not_found = remember api_key false false
  after_fetch api_key failed = pure (false, false)
  after_fetch api_key (snapshot false d) = remember api_key false false
  after_fetch api_key (snapshot true d) = remember_premium api_key (premium_status d)

  after_lookup : Bytes → Option UserStatus → State W (Bool × Bool)
  unfolding after_fetch
  after_lookup api_key (some s) = pure (s.exists, s.premium)
  after_lookup api_key none = do
    fetched ← db.get_doc (codes "users") api_key
    after_fetch api_key fetched

  unfoldable pub validate_user_api_key : Bytes → State W (Bool × Bool)
  unfolding after_lookup
  validate_user_api_key api_key = do
    cached ← get_cached_user_status api_key
    after_lookup api_key cached
