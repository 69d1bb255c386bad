-- ===== src/FeedApi/Tests/Routing.antt =====
-- The routes on concrete paths.
use stockic_feed_api.Common.{◌≡◌, refl, []}
use stockic_feed_api.Go.Http.{Request, fresh}
use stockic_feed_api.Go.Mux.{
  handled, redirected, ends_in_slash, matches, best, registered, or_slash, by_pattern, route,
}
use stockic_feed_api.Go.Text.{codes, str_eq, has_prefix}
use stockic_feed_api.FeedApi.Handlers.Base.{Writer}
use stockic_feed_api.FeedApi.Middleware.Addresses.{sent_from}
use stockic_feed_api.FeedApi.Routes.{ping, detail, headlines, fallback, setup_routes, serve}
use stockic_feed_api.FeedApi.Routes.Addresses.{serve-any_address}
use stockic_feed_api.FeedApi.Routes.Chain.{chosen, route-chosen}
use stockic_feed_api.FeedApi.Tests.Lists.{test_codec}
use stockic_feed_api.FeedApi.Tests.Stores.{memory, one_user, test_json}

route_tests :
    (route setup_routes (codes "/api/v2/detail/ab12") ≡ handled detail)
    × (route setup_routes (codes "/api/v2/headlines/") ≡ handled headlines)
    × (route setup_routes (codes "/api/v2/headlines") ≡ redirected)
    × (route setup_routes (codes "/api/v2/ping/") ≡ handled fallback)
unfolding route by_pattern or_slash registered best matches ends_in_slash setup_routes str_eq
    has_prefix
route_tests = (refl, refl, refl, refl)

route-chosen_example :
    route setup_routes (codes "/api/v2/detail/ab12") ≡ chosen (codes "/api/v2/detail/ab12")
unfolding has_prefix
route-chosen_example = route-chosen (codes "/api/v2/detail/ab12") refl

abbrev w0 : Writer
w0 = fresh

-- A request of the paying user for the greeting.
abbrev paid_ping : Request
paid_ping = record {
  method = codes "GET";
  path = codes "/api/v2/ping";
  header = λ name. codes "u1";
  query = λ name. [];
  remote_addr = codes "10.0.0.1:80";
  body = [];
}

serve-any_address_example :
    serve memory memory one_user test_json test_codec
      (λ w. w)
      (sent_from (codes "192.168.0.9:80") paid_ping)
      w0
      []
    ≡ serve memory memory one_user test_json test_codec (λ w. w) paid_ping w0 []
unfolding route by_pattern or_slash registered best matches ends_in_slash setup_routes str_eq
    has_prefix
serve-any_address_example =
    serve-any_address memory memory one_user test_json test_codec (λ w. w) paid_ping
      (codes "192.168.0.9:80") w0 [] ping refl (λ e. cc)
