-- ===== src/FeedApi/Routes/Guarded.antt =====
-- No route but the fallback serves a request without a registered user.
use stockic_feed_api.Common.{◌≡◌, ◌≢◌, refl, List, [], Option, none, some}
use stockic_feed_api.Go.Http.{Request, http_error}
use stockic_feed_api.Go.Mux.{handled, route}
use stockic_feed_api.Go.Text.{Bytes, codes}
use stockic_feed_api.Stores.Codec.{Codec, RoundTrip}
use stockic_feed_api.Stores.Firestore.{Firestore}
use stockic_feed_api.Stores.Redis.{Redis}
use stockic_feed_api.FeedApi.FindArticle.{News}
use stockic_feed_api.FeedApi.Handlers.Base.{Writer, Task}
use stockic_feed_api.FeedApi.Middleware.Access.{request_middleware-refuses}
use stockic_feed_api.FeedApi.Models.{UserStatus}
use stockic_feed_api.FeedApi.Routes.{
  Endpoint, ping, headlines, news_feed, discover, detail, fallback, setup_routes, handler_of,
  after_route, serve,
}
use stockic_feed_api.FeedApi.UserStatus.Backends.{Backends}
use stockic_feed_api.FeedApi.UserStatus.Coherence.{Coherent}

module _ {W : Type 0} (api_cache news_cache : Redis W) (db : Firestore W) (json : Codec UserStatus)
    (codec : Codec News) (redirect : Writer → Writer) (backends : Backends api_cache db)
    (round_trip : RoundTrip json) where
  open backends use {users}

  -- The answer of the middleware to a request that it does not let through.
  abbrev pub Refuses : Option (Writer × List Task × W) → Writer → Type 0
  Refuses r w =
      (message : Bytes) × (world' : W) × (r ≡ some (http_error message 404 w, [], world'))
      × Coherent api_cache db json backends world'

  handler_of-Refuses :
      (endpoint : Endpoint) (request : Request) (w : Writer) (world : W)
      → Coherent api_cache db json backends world
      → users world (request.header (codes "X-API-Key")) ≡ none
      → endpoint ≢ fallback
      → Refuses (handler_of api_cache news_cache db json codec redirect endpoint request w world) w
  unfolding handler_of
  handler_of-Refuses ping request w world coherent absent other =
      request_middleware-refuses api_cache db json backends round_trip _ request w world coherent
        absent
  handler_of-Refuses headlines request w world coherent absent other =
      request_middleware-refuses api_cache db json backends round_trip _ request w world coherent
        absent
  handler_of-Refuses news_feed request w world coherent absent other =
      request_middleware-refuses api_cache db json backends round_trip _ request w world coherent
        absent
  handler_of-Refuses discover request w world coherent absent other =
      request_middleware-refuses api_cache db json backends round_trip _ request w world coherent
        absent
  handler_of-Refuses detail request w world coherent absent other =
      request_middleware-refuses api_cache db json backends round_trip _ request w world coherent
        absent
  handler_of-Refuses fallback request w world coherent absent other = absurd (other refl)

  -- From a cache whose readable entries are the statuses of their users, a request that is routed
  -- to any handler but the fallback, and whose key belongs to no user, is answered with 404 and
  -- nothing else: no article is shown and no read is counted.
  pub serve-Refuses :
      (endpoint : Endpoint) (request : Request) (w : Writer) (world : W)
      → Coherent api_cache db json backends world
      → users world (request.header (codes "X-API-Key")) ≡ none
      → route setup_routes request.path ≡ handled endpoint
      → endpoint ≢ fallback
      → Refuses (serve api_cache news_cache db json codec redirect request w world) w
  unfolding serve after_route
  serve-Refuses endpoint request w world coherent absent routed other =
      rw routed (handler_of-Refuses endpoint request w world coherent absent other)
