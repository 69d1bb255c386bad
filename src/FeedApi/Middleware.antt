-- ===== src/FeedApi/Middleware.antt =====
-- `RequestMiddleware` of feed-api/middleware/middleware.go. Time measurement and log messages are left
-- out.
pub mod Access
pub mod Addresses
pub mod Worlds
use stockic_feed_api.Common.{Bool, true, false, List, [], Option, some, if◌then◌else◌}
use stockic_feed_api.Go.Http.{Request, http_error}
use stockic_feed_api.Go.Text.{Bytes, codes, str_eq}
use stockic_feed_api.Stores.Codec.{Codec}
use stockic_feed_api.Stores.Firestore.{Firestore}
use stockic_feed_api.Stores.Redis.{Redis}
use stockic_feed_api.FeedApi.Handlers.Base.{Writer, Task, Handler, finish}
use stockic_feed_api.FeedApi.Models.{UserStatus}
use stockic_feed_api.FeedApi.UserStatus.{validate_user_api_key}

module _ {W : Type 0} (cache : Redis W) (db : Firestore W) (json : Codec UserStatus)
    (next : Handler W) where
  after_validate : Request → Writer → (Bool × Bool) × W → Option (Writer × List Task × W)
  after_validate request w ((exists, premium), world) =
      if exists
      then next request w world
      else finish (some (http_error (codes "User doesn't exist") 404 w)) world

  unfoldable pub request_middleware : Handler W
  unfolding after_validate
  request_middleware request w world =
      let api_key = request.header (codes "X-API-Key") in
      if str_eq api_key []
      then finish (some (http_error (codes "No API Key") 404 w)) world
      else after_validate request w (validate_user_api_key cache db json api_key world)
