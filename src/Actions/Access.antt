-- ===== src/Actions/Access.antt =====
-- `ValidateUserAPIKey`, `GetCachedUserStatus` and `CacheUserStatus` of
-- actions/services/services.go and `RequestMiddleware` of
-- actions/middleware/middleware.go. Both services have the same text for validation, so the
-- definitions of feed-api serve here too. Time measurement and log messages are left out.
pub mod Refused
use stockic_feed_api.Common.{◌≡◌, Bool, true, false, [], Option, some, none, if◌then◌else◌}
use stockic_feed_api.Common.State.{State, ◌>>=◌, pure}
use stockic_feed_api.Go.Http.{Request, http_error}
use stockic_feed_api.Go.Text.{Bytes, codes, str_eq}
use stockic_feed_api.Stores.Codec.{Codec}
use stockic_feed_api.Stores.Firestore.{Firestore}
use stockic_feed_api.Stores.Redis.{Redis}
use stockic_feed_api.FeedApi.Models.{UserStatus}
use stockic_feed_api.FeedApi.UserStatus
use stockic_feed_api.Actions.Base.{Writer}

module _ {W : Type 0} (cache : Redis W) (db : Firestore W) (json : Codec UserStatus) where
  unfoldable pub get_cached_user_status : Bytes → State W (Option UserStatus)
  get_cached_user_status = UserStatus.get_cached_user_status cache db json

  unfoldable pub cache_user_status : Bytes → UserStatus → State W Bool
  cache_user_status = UserStatus.cache_user_status cache db json

  unfoldable pub validate_user_api_key : Bytes → State W (Bool × Bool)
  validate_user_api_key = UserStatus.validate_user_api_key cache db json

  -- `R` is what a handler returns: a response, or a response or a panic.
  module _ {R : Type 0} (respond : Writer → R) (next : Request → Writer → State W R) where
    admit : Request → Writer → Bool × Bool → State W R
    admit request w (exists, premium) =
        if exists
        then next request w
        else pure (respond (http_error (codes "User doesn't exist") 404 w))

    unfoldable pub request_middleware : Request → Writer → State W R
    unfolding validate_user_api_key admit
    request_middleware request w =
        let api_key = request.header (codes "X-API-Key") in
        if str_eq api_key []
        then pure (respond (http_error (codes "No API Key") 404 w))
        else (do found ← validate_user_api_key api_key; admit request w found)
