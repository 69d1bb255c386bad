-- ===== src/FeedApi/Routes.antt =====
-- `setupRoutes` of feed-api/main.go.
pub mod Addresses
pub mod Chain
pub mod Guarded
use stockic_feed_api.Common.{List, [], ◌∷◌, Option, none, some}
use stockic_feed_api.Go.Mux.{Table, Routed, handled, redirected, not_found, route}
use stockic_feed_api.Go.Http.{Request, http_error}
use stockic_feed_api.Go.Text.{Bytes, codes}
use stockic_feed_api.Stores.Codec.{Codec}
use stockic_feed_api.Stores.Firestore.{Firestore}
use stockic_feed_api.Stores.Redis.{Redis}
use stockic_feed_api.FeedApi.Blocked.{fallback_handler}
use stockic_feed_api.FeedApi.FindArticle.{News}
use stockic_feed_api.FeedApi.Handlers.Detail.{detail_handler}
use stockic_feed_api.FeedApi.Handlers.Lists
use stockic_feed_api.FeedApi.Handlers.Lists.{headlines_handler, news_feed_handler, discover_handler}
use stockic_feed_api.FeedApi.Middleware.{request_middleware}
use stockic_feed_api.FeedApi.Models.{UserStatus}
use stockic_feed_api.FeedApi.Handlers.Base.{Writer, Handler, Task}

-- The handlers of the table: those behind the middleware, and the fallback.
pub data Endpoint : Type 0 where
  ping headlines news_feed discover detail fallback : Endpoint

-- with the VersionPrefix /api/v2
unfoldable pub setup_routes : Table Endpoint
setup_routes =
    (codes "/api/v2/ping", ping)
    ∷ (codes "/api/v2/headlines/", headlines)
    ∷ (codes "/api/v2/newsfeed/", news_feed)
    ∷ (codes "/api/v2/discover/", discover)
    ∷ (codes "/api/v2/detail/", detail)
    ∷ (codes "/", fallback)
    ∷ []

-- `redirect` is the response of net/http to a path that only lacks its last slash. The cache of the
-- users is also that of the blocked addresses.
module _ {W : Type 0} (api_cache news_cache : Redis W) (db : Firestore W) (json : Codec UserStatus)
    (codec : Codec News) (redirect : Writer → Writer) where
  unfoldable pub handler_of : Endpoint → Handler W
  handler_of ping = request_middleware api_cache db json Lists.ping
  handler_of headlines = request_middleware api_cache db json (headlines_handler news_cache codec)
  handler_of news_feed = request_middleware api_cache db json (news_feed_handler news_cache codec)
  handler_of discover = request_middleware api_cache db json (discover_handler news_cache codec)
  handler_of detail = request_middleware api_cache db json (detail_handler news_cache codec)
  handler_of fallback = fallback_handler api_cache db

  unfoldable pub after_route : Routed Endpoint → Handler W
  after_route (handled endpoint) request w world = handler_of endpoint request w world
  after_route redirected request w world = some (redirect w, [], world)
  after_route not_found request w world =
      some (http_error (codes "404 page not found") 404 w, [], world)

  -- The server's answer to a request.
  unfoldable pub serve : Handler W
  serve request w world = after_route (route setup_routes request.path) request w world
