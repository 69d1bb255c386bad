-- ===== src/FeedApi/Routes/Addresses.antt =====
-- Which routes of feed-api look at the address of a request.
use stockic_feed_api.Common.{◌≡◌, ◌≢◌, refl}
use stockic_feed_api.Go.Http.{Request}
use stockic_feed_api.Go.Mux.{handled, route}
use stockic_feed_api.Go.Text.{Bytes}
use stockic_feed_api.Stores.Codec.{Codec}
use stockic_feed_api.Stores.Firestore.{Firestore}
use stockic_feed_api.Stores.Redis.{Redis}
use stockic_feed_api.FeedApi.FindArticle.{News}
use stockic_feed_api.FeedApi.Handlers.Base.{Writer, path_parts}
use stockic_feed_api.FeedApi.Handlers.Detail.{detail_of, detail_handler}
use stockic_feed_api.FeedApi.Handlers.Lists
use stockic_feed_api.FeedApi.Handlers.Lists.{headlines_handler, news_feed_handler, discover_handler}
use stockic_feed_api.FeedApi.Middleware.Addresses.{
  AnyAddress, sent_from, request_middleware-AnyAddress,
}
use stockic_feed_api.FeedApi.Models.{UserStatus}
use stockic_feed_api.FeedApi.Routes.{
  Endpoint, ping, headlines, news_feed, discover, detail, fallback, handler_of, after_route,
  setup_routes, serve,
}

ping-AnyAddress : (W : Type 0) → AnyAddress {W = W} Lists.ping
unfolding AnyAddress sent_from Lists.ping
ping-AnyAddress W request address w world = refl

module _ {W : Type 0} (news_cache : Redis W) (codec : Codec News) where
  headlines_handler-AnyAddress : AnyAddress (headlines_handler news_cache codec)
  unfolding AnyAddress sent_from headlines_handler path_parts
  headlines_handler-AnyAddress request address w world = refl

  news_feed_handler-AnyAddress : AnyAddress (news_feed_handler news_cache codec)
  unfolding AnyAddress sent_from news_feed_handler path_parts
  news_feed_handler-AnyAddress request address w world = refl

  discover_handler-AnyAddress : AnyAddress (discover_handler news_cache codec)
  unfolding AnyAddress sent_from discover_handler path_parts
  discover_handler-AnyAddress request address w world = refl

  detail_handler-AnyAddress : AnyAddress (detail_handler news_cache codec)
  unfolding AnyAddress sent_from detail_handler path_parts detail_of
  detail_handler-AnyAddress request address w world = refl

module _ {W : Type 0} (api_cache news_cache : Redis W) (db : Firestore W) (json : Codec UserStatus)
    (codec : Codec News) (redirect : Writer → Writer) where
  handler_of-AnyAddress :
      (endpoint : Endpoint)
      → endpoint ≢ fallback
      → AnyAddress (handler_of api_cache news_cache db json codec redirect endpoint)
  unfolding handler_of
  handler_of-AnyAddress ping other =
      request_middleware-AnyAddress api_cache db json _ (ping-AnyAddress _)
  handler_of-AnyAddress headlines other =
      request_middleware-AnyAddress api_cache db json _
        (headlines_handler-AnyAddress news_cache codec)
  handler_of-AnyAddress news_feed other =
      request_middleware-AnyAddress api_cache db json _
        (news_feed_handler-AnyAddress news_cache codec)
  handler_of-AnyAddress discover other =
      request_middleware-AnyAddress api_cache db json _
        (discover_handler-AnyAddress news_cache codec)
  handler_of-AnyAddress detail other =
      request_middleware-AnyAddress api_cache db json _ (detail_handler-AnyAddress news_cache codec)
  handler_of-AnyAddress fallback other = elim (other refl) [ ]

  -- A request that is routed to another handler than the fallback is answered alike from any address,
  -- a blocked one included: the same response, the same tasks and the same world.
  pub serve-any_address :
      (request : Request) (address : Bytes) (w : Writer) (world : W) (endpoint : Endpoint)
      → route setup_routes request.path ≡ handled endpoint
      → endpoint ≢ fallback
      → serve api_cache news_cache db json codec redirect (sent_from address request) w world
        ≡ serve api_cache news_cache db json codec redirect request w world
  unfolding serve after_route sent_from AnyAddress
  serve-any_address request address w world endpoint routed other =
      rw routed (handler_of-AnyAddress endpoint other request address w world)
