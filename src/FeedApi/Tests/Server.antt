-- ===== src/FeedApi/Tests/Server.antt =====
-- The server at work: a redirect, and the mark of a blocked address.
use stockic_feed_api.Common.{◌≡◌, refl, [], ◌∷◌}
use stockic_feed_api.Go.Http.{Request, fresh}
use stockic_feed_api.Go.Mux.{ends_in_slash, matches, best, registered, or_slash, by_pattern, route}
use stockic_feed_api.Go.Text.{Bytes, codes, str_eq, has_prefix}
use stockic_feed_api.FeedApi.Handlers.Base.{Writer, mark_blocked}
use stockic_feed_api.FeedApi.Routes.{detail, setup_routes, after_route, serve}
use stockic_feed_api.FeedApi.Routes.Guarded.{Refuses}
use stockic_feed_api.FeedApi.Server.{run_task, Server, Quiet, Reach, here, next, answers, runs}
use stockic_feed_api.FeedApi.Server.Refused.{Reach-Refuses}
use stockic_feed_api.FeedApi.Tests.Lists.{test_codec}
use stockic_feed_api.FeedApi.Tests.Stores.{
  Memory, memory, users, one_user, test_backends, test_json, test_json-RoundTrip,
}
use stockic_feed_api.FeedApi.UserStatus.Coherence.{Coherent}

abbrev from_guest : Bytes → Request
from_guest path = record {
  method = codes "GET";
  path = path;
  header = λ name. codes "u2";
  query = λ name. [];
  remote_addr = [];
  body = [];
}

test_quiet : Quiet memory memory memory one_user test_backends
test_quiet = record {
  exists_keeps = λ k w. (λ j x h. h, refl);
  query_keeps = λ f v w. (λ j x h. h, refl);
  add_keeps = λ d w. (λ j x h. h, refl);
  news_keeps = λ k w. (λ j x h. h, refl);
  count_keeps = λ k w. (λ j x h. h, refl);
}

nothing-Coherent : Coherent memory one_user test_json test_backends []
nothing-Coherent key x s cached read = cc

abbrev w0 : Writer
w0 = fresh

-- A goroutine of the fallback has not run yet.
abbrev start : Server Memory
start = record { world = []; pending = mark_blocked (codes "10.0.0.1") ∷ [] }

abbrev end : Server Memory
end = record { world = (codes "10.0.0.1", codes "blocked") ∷ []; pending = [] }

start-end :
    Reach memory memory memory one_user test_backends test_json test_codec (λ w. w) start end
unfolding serve after_route run_task route by_pattern or_slash registered best matches ends_in_slash
    setup_routes str_eq has_prefix
start-end =
    next (next here (answers (from_guest (codes "/api/v2/headlines")) w0 w0 [] [] refl refl))
      (runs [] [] (mark_blocked (codes "10.0.0.1")) refl refl)

Reach-Refuses_example :
    (users end.world ≡ users start.world)
    × Coherent memory one_user test_json test_backends end.world
    × Refuses memory memory one_user test_json test_codec
        (λ w. w)
        test_backends
        test_json-RoundTrip
        (serve memory memory one_user test_json test_codec
          (λ w. w)
          (from_guest (codes "/api/v2/detail/ab12"))
          w0
          end.world)
        w0
unfolding route by_pattern or_slash registered best matches ends_in_slash setup_routes str_eq
    has_prefix
Reach-Refuses_example =
    Reach-Refuses memory memory memory one_user test_json test_codec (λ w. w) test_backends
      test_json-RoundTrip test_quiet refl start end detail
      (from_guest (codes "/api/v2/detail/ab12")) w0 nothing-Coherent start-end refl refl (λ e. cc)
