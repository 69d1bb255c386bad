-- ===== src/FeedApi/Server/Refused.antt =====
-- However long the server of feed-api has been at work, it serves no request without a user.
use stockic_feed_api.Common.{◌≡◌, ◌≢◌, inl, inr, refl, ◌∙◌, none}
use stockic_feed_api.Go.Http.{Request}
use stockic_feed_api.Go.Mux.{Routed, handled, redirected, not_found, route}
use stockic_feed_api.Go.Text.{Bytes, codes}
use stockic_feed_api.Stores.Codec.{Codec, RoundTrip}
use stockic_feed_api.Stores.Firestore.{Firestore}
use stockic_feed_api.Stores.Redis.{Redis}
use stockic_feed_api.FeedApi.Blocked.Worlds.{fallback_handler-Preserves}
use stockic_feed_api.FeedApi.FindArticle.{News}
use stockic_feed_api.FeedApi.Handlers.Base.{Writer, Task, increment, mark_blocked}
use stockic_feed_api.FeedApi.Handlers.Ends.{Preserves, detail_handler-Preserves}
use stockic_feed_api.FeedApi.Handlers.Lists.Worlds.{
  ping-Preserves, headlines_handler-Preserves, news_feed_handler-Preserves,
  discover_handler-Preserves,
}
use stockic_feed_api.FeedApi.Middleware.Worlds.{request_middleware-Preserves}
use stockic_feed_api.FeedApi.Models.{UserStatus}
use stockic_feed_api.FeedApi.Routes.{
  Endpoint, ping, headlines, news_feed, discover, detail, fallback, setup_routes, handler_of,
  after_route, serve,
}
use stockic_feed_api.FeedApi.Routes.Guarded.{Refuses, serve-Refuses}
use stockic_feed_api.FeedApi.Server.{
  hour, run_task, Server, Kept, Quiet, Step, answers, runs, expires, Reach, here, next,
}
use stockic_feed_api.FeedApi.UserStatus.{cache_key, validate_user_api_key}
use stockic_feed_api.FeedApi.UserStatus.Backends.{Backends}
use stockic_feed_api.FeedApi.UserStatus.Coherence.{
  Coherent, fewer-Coherent, validate_user_api_key-IsRight,
}

module _ {W : Type 0} (api_cache news_cache log : Redis W) (db : Firestore W)
    (json : Codec UserStatus) (codec : Codec News) (redirect : Writer → Writer)
    (backends : Backends api_cache db) (round_trip : RoundTrip json)
    (quiet : Quiet api_cache news_cache log db backends)
    (no_status : json.unmarshal (codes "blocked") ≡ none) (origin : W) where
  open backends use {entries, users}

  -- The cache is coherent, and the users are those of the beginning.
  abbrev pub IsSound : W → Type 0
  IsSound w = Coherent api_cache db json backends w × (users w ≡ users origin)

  Kept-IsSound :
      (w w' : W) → Kept api_cache news_cache log db backends w w' → IsSound w → IsSound w'
  Kept-IsSound w w' (fewer, same) (coherent, first) =
      (fewer-Coherent api_cache db json backends w w' coherent fewer same, same ∙ first)

  validate-IsSound :
      (key : Bytes) (w : W) → IsSound w → IsSound (validate_user_api_key api_cache db json key w).1
  validate-IsSound key w (coherent, first) =
      let (coherent', same, right) =
        validate_user_api_key-IsRight api_cache db json backends round_trip key w coherent in
      (coherent', same ∙ first)

  handler_of-Preserves :
      (endpoint : Endpoint)
      → Preserves IsSound (handler_of api_cache news_cache db json codec redirect endpoint)
  unfolding handler_of
  handler_of-Preserves ping =
      request_middleware-Preserves api_cache db json IsSound validate-IsSound _
        (ping-Preserves IsSound)
  handler_of-Preserves headlines =
      request_middleware-Preserves api_cache db json IsSound validate-IsSound _ (
        headlines_handler-Preserves news_cache codec IsSound
          (λ k w. Kept-IsSound w _ (quiet.news_keeps k w)))
  handler_of-Preserves news_feed =
      request_middleware-Preserves api_cache db json IsSound validate-IsSound _ (
        news_feed_handler-Preserves news_cache codec IsSound
          (λ k w. Kept-IsSound w _ (quiet.news_keeps k w)))
  handler_of-Preserves discover =
      request_middleware-Preserves api_cache db json IsSound validate-IsSound _ (
        discover_handler-Preserves news_cache codec IsSound
          (λ k w. Kept-IsSound w _ (quiet.news_keeps k w)))
  handler_of-Preserves detail =
      request_middleware-Preserves api_cache db json IsSound validate-IsSound _ (
        detail_handler-Preserves news_cache codec IsSound
          (λ k w. Kept-IsSound w _ (quiet.news_keeps k w)))
  handler_of-Preserves fallback =
      fallback_handler-Preserves api_cache db IsSound
        (λ k w. Kept-IsSound w _ (quiet.exists_keeps k w))
        (λ f v w. Kept-IsSound w _ (quiet.query_keeps f v w))
        (λ d w. Kept-IsSound w _ (quiet.add_keeps d w))

  after_route-Preserves :
      (r : Routed Endpoint)
      → Preserves IsSound (after_route api_cache news_cache db json codec redirect r)
  unfolding after_route
  after_route-Preserves (handled endpoint) request w world sound =
      handler_of-Preserves endpoint request w world sound
  after_route-Preserves redirected request w world sound = sound
  after_route-Preserves not_found request w world sound = sound

  -- The mark of a blocked address is no status.
  mark-Coherent :
      (ip : Bytes) (w : W)
      → Coherent api_cache db json backends w
      → Coherent api_cache db json backends (api_cache.set ip (codes "blocked") hour w).1
  mark-Coherent ip w coherent key x s cached read =
      rw backends.set_users
        (elim (backends.is_cache.set_writes ip (codes "blocked") hour w (cache_key key) x cached) [
          | inl written ↦ cc (no_status, read, written.1)
          | inr old ↦ coherent key x s old read
        ])

  run_task-IsSound : (task : Task) (w : W) → IsSound w → IsSound (run_task api_cache log task w).1
  unfolding run_task
  run_task-IsSound (increment key) w sound = Kept-IsSound w _ (quiet.count_keeps key w) sound
  run_task-IsSound (mark_blocked ip) w (coherent, first) =
      (mark-Coherent ip w coherent, backends.set_users ip _ _ w ∙ first)

  Step-IsSound :
      (s t : Server W)
      → Step api_cache news_cache log db backends json codec redirect s t
      → IsSound s.world
      → IsSound t.world
  unfolding serve
  Step-IsSound s t (answers request w w' tasks world answered is_t) sound =
      let ends = after_route-Preserves (route setup_routes request.path) request w s.world sound in
      rw is_t (rw answered at ends)
  Step-IsSound s t (runs before after task started is_t) sound =
      rw is_t (run_task-IsSound task s.world sound)
  Step-IsSound s t (expires w kept is_t) sound = rw is_t (Kept-IsSound s.world w kept sound)

  Reach-IsSound :
      (s t : Server W)
      → Reach api_cache news_cache log db backends json codec redirect s t
      → IsSound s.world
      → IsSound t.world
  Reach-IsSound s t here sound = sound
  Reach-IsSound s t (next {t = m} before step) sound =
      Step-IsSound m t step (Reach-IsSound s m before sound)

module _ {W : Type 0} (api_cache news_cache log : Redis W) (db : Firestore W)
    (json : Codec UserStatus) (codec : Codec News) (redirect : Writer → Writer)
    (backends : Backends api_cache db) (round_trip : RoundTrip json)
    (quiet : Quiet api_cache news_cache log db backends)
    (no_status : json.unmarshal (codes "blocked") ≡ none) where
  open backends use {users}

  -- From a cache whose readable entries are the statuses of their users, after any requests that do not
  -- panic, goroutines and expiries, in any order: the users are those of the beginning, the cache is
  -- such a cache, and a request that is routed to any handler but the fallback, and whose key belonged
  -- to no user, is answered with 404 and nothing else.
  pub Reach-Refuses :
      (s t : Server W) (endpoint : Endpoint) (request : Request) (w : Writer)
      → Coherent api_cache db json backends s.world
      → Reach api_cache news_cache log db backends json codec redirect s t
      → users s.world (request.header (codes "X-API-Key")) ≡ none
      → route setup_routes request.path ≡ handled endpoint
      → endpoint ≢ fallback
      → (users t.world ≡ users s.world)
        × Coherent api_cache db json backends t.world
        × Refuses api_cache news_cache db json codec redirect backends round_trip
            (serve api_cache news_cache db json codec redirect request w t.world)
            w
  Reach-Refuses s t endpoint request w coherent reached absent routed other =
      let (coherent', same) =
        Reach-IsSound api_cache news_cache log db json codec redirect backends round_trip quiet
          no_status s.world s t reached (coherent, refl) in
      (
        same,
        coherent',
        serve-Refuses api_cache news_cache db json codec redirect backends round_trip endpoint
            request w t.world coherent' (rw same absent) routed other,
      )
