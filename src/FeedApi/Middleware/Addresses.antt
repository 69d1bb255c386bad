-- ===== src/FeedApi/Middleware/Addresses.antt =====
-- The middleware of feed-api and the address of a request.
use stockic_feed_api.Common.{◌≡◌, refl, ap, Bool, true, false, [], if◌then◌else◌, some}
use stockic_feed_api.Go.Http.{Request, http_error}
use stockic_feed_api.Go.Text.{Bytes, codes, str_eq}
use stockic_feed_api.Stores.Codec.{Codec}
use stockic_feed_api.Stores.Firestore.{Firestore}
use stockic_feed_api.Stores.Redis.{Redis}
use stockic_feed_api.FeedApi.Handlers.Base.{Writer, Handler, finish}
use stockic_feed_api.FeedApi.Middleware.{after_validate, request_middleware}
use stockic_feed_api.FeedApi.Models.{UserStatus}
use stockic_feed_api.FeedApi.UserStatus.{validate_user_api_key}

-- The request, had it come from this address.
unfoldable pub sent_from : Bytes → Request → Request
sent_from address request = record request { remote_addr = address }

-- A handler answers a request from any address alike.
unfoldable pub AnyAddress : {W : Type 0} → Handler W → Type 0
AnyAddress {W} handler =
    (request : Request) (address : Bytes) (w : Writer) (world : W)
    → handler (sent_from address request) w world ≡ handler request w world

module _ {W : Type 0} (cache : Redis W) (db : Firestore W) (json : Codec UserStatus)
    (next : Handler W) (any : AnyAddress next) where
  after_validate-any :
      (request : Request) (address : Bytes) (w : Writer) (r : (Bool × Bool) × W)
      → after_validate cache db json next (sent_from address request) w r
        ≡ after_validate cache db json next request w r
  unfolding after_validate AnyAddress
  after_validate-any request address w ((true, p), world) = any request address w world
  after_validate-any request address w ((false, p), world) = refl

  pub request_middleware-AnyAddress : AnyAddress (request_middleware cache db json next)
  unfolding AnyAddress request_middleware sent_from
  request_middleware-AnyAddress request address w world =
      let key = request.header (codes "X-API-Key") in
      ap
        (λ t.
          if str_eq key [] then finish (some (http_error (codes "No API Key") 404 w)) world else t)
        (after_validate-any request address w (validate_user_api_key cache db json key world))
