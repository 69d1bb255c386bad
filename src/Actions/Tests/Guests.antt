-- ===== src/Actions/Tests/Guests.antt =====
-- Requests without a registered user, and the routes on concrete paths.
use stockic_feed_api.Common.{◌≡◌, refl, ℕ, ◌⊎◌, inl, [], Option, none}
use stockic_feed_api.Common.State.{State}
use stockic_feed_api.Go.Http.{Request, fresh}
use stockic_feed_api.Go.Mux.{
  handled, ends_in_slash, matches, best, registered, or_slash, by_pattern, route,
}
use stockic_feed_api.Go.Text.{Bytes, codes, str_eq, has_prefix}
use stockic_feed_api.Stores.Firestore.{Value}
use stockic_feed_api.FeedApi.Tests.Stores.{
  Memory, memory, one_user, test_backends, test_json, test_json-RoundTrip,
}
use stockic_feed_api.FeedApi.UserStatus.Coherence.{Coherent}
use stockic_feed_api.Actions.Base.{Writer}
use stockic_feed_api.Actions.Routes.{
  bookmarks_add, bookmarks_list, callback, fallback, setup_routes, serve,
}
use stockic_feed_api.Actions.Routes.Guarded.{Stops, serve-Stops}

abbrev w0 : Writer
w0 = fresh

abbrev guest : Request
guest = record {
  method = codes "GET";
  path = codes "/api/v2/actions/bookmarks-list";
  header = λ name. codes "u2";
  query = λ name. [];
  remote_addr = [];
  body = [];
}

empty-Coherent : Coherent memory one_user test_json test_backends []
empty-Coherent key x s cached read = cc

route_tests :
    (route setup_routes (codes "/api/v2/actions/bookmarks-add") ≡ handled bookmarks_add)
    × (route setup_routes (codes "/api/v2/actions/bookmarks-add/") ≡ handled fallback)
    × (route setup_routes (codes "/api/v2/actions/notion/oauth/callback") ≡ handled callback)
unfolding route by_pattern or_slash registered best matches ends_in_slash setup_routes str_eq
    has_prefix
route_tests = (refl, refl, refl)

abbrev env : Bytes → Bytes
env name = []

abbrev no_random : ℕ → State Memory (Option ℕ)
no_random n w = (none, w)

abbrev notion : Bytes → Bytes → State Memory (Option Bytes)
notion credentials body w = (none, w)

abbrev decode : Bytes → Bytes ⊎ Value
decode text = inl []

serve-Stops_example :
    Stops memory memory one_user test_json
      (λ b. none)
      env
      no_random
      (λ r. none)
      notion
      decode
      (λ r. [])
      (λ w. w)
      test_backends
      test_json-RoundTrip
      (serve memory memory one_user test_json
        (λ b. none)
        env
        no_random
        (λ r. none)
        notion
        decode
        (λ r. [])
        (λ w. w)
        guest
        w0
        [])
      w0
      []
unfolding route by_pattern or_slash registered best matches ends_in_slash setup_routes str_eq
    has_prefix
serve-Stops_example =
    serve-Stops memory memory one_user test_json (λ b. none) env no_random (λ r. none) notion decode
      (λ r. []) (λ w. w) test_backends test_json-RoundTrip bookmarks_list guest w0 [] empty-Coherent
      refl refl (λ e. cc) (λ e. cc)
