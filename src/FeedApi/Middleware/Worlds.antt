-- ===== src/FeedApi/Middleware/Worlds.antt =====
-- What the middleware of feed-api leaves of the world.
use stockic_feed_api.Common.{[], some}
use stockic_feed_api.Go.Text.{Bytes, codes, str_eq}
use stockic_feed_api.Stores.Codec.{Codec}
use stockic_feed_api.Stores.Firestore.{Firestore}
use stockic_feed_api.Stores.Redis.{Redis}
use stockic_feed_api.FeedApi.Handlers.Base.{Handler}
use stockic_feed_api.FeedApi.Handlers.Ends.{Preserves, if-Ends, finish-Ends}
use stockic_feed_api.FeedApi.Middleware.{after_validate, request_middleware}
use stockic_feed_api.FeedApi.Models.{UserStatus}
use stockic_feed_api.FeedApi.UserStatus.{validate_user_api_key}

module _ {W : Type 0} (cache : Redis W) (db : Firestore W) (json : Codec UserStatus)
    (P : W → Type 0)
    (validate_keeps : (k : Bytes) (w : W)
      → P w
      → P (validate_user_api_key cache db json k w).1) where
  pub request_middleware-Preserves :
      (next : Handler W) → Preserves P next → Preserves P (request_middleware cache db json next)
  unfolding request_middleware after_validate
  request_middleware-Preserves next keeps request w world p =
      let key = request.header (codes "X-API-Key") in
      let after = validate_user_api_key cache db json key world in
      let valid = validate_keeps key world p in
      if-Ends P (str_eq key []) _ _ (finish-Ends P (some _) world p) (
        if-Ends P after.0.0 _ _ (keeps request w after.1 valid)
          (finish-Ends P (some _) after.1 valid))
