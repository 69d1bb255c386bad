-- ===== src/Actions/Routes/Guarded.antt =====
-- What the routes of actions do for a request without a registered user.
use stockic_feed_api.Common.{◌≡◌, ◌≢◌, refl, ◌⊎◌, Option, none, some, ℕ}
use stockic_feed_api.Common.State.{State}
use stockic_feed_api.Go.Http.{Request, http_error}
use stockic_feed_api.Go.Mux.{handled, route}
use stockic_feed_api.Go.Text.{Bytes, codes}
use stockic_feed_api.Stores.Codec.{Codec, RoundTrip}
use stockic_feed_api.Stores.Firestore.{Firestore, Value}
use stockic_feed_api.Stores.Redis.{Redis, Reply}
use stockic_feed_api.FeedApi.Models.{UserStatus}
use stockic_feed_api.FeedApi.UserStatus.Backends.{Backends}
use stockic_feed_api.FeedApi.UserStatus.Coherence.{Coherent}
use stockic_feed_api.Actions.Access.Refused.{request_middleware-stops}
use stockic_feed_api.Actions.Base.{Writer}
use stockic_feed_api.Actions.Models.{BookmarkRequest}
use stockic_feed_api.Actions.Routes.{
  Endpoint, ping, bookmarks_add, bookmarks_remove, bookmarks_list, auth_session, callback, fallback,
  setup_routes, handler_of, after_route, serve,
}
use stockic_feed_api.Actions.Session.{TokenRequest}

module _ {W : Type 0} (api_cache sessions : Redis W) (db : Firestore W) (json : Codec UserStatus)
    (decode_request : Bytes → Option BookmarkRequest) (env : Bytes → Bytes)
    (rand_int : ℕ → State W (Option ℕ)) (marshal : TokenRequest → Option Bytes)
    (notion : Bytes → Bytes → State W (Option Bytes)) (decode : Bytes → Bytes ⊎ Value)
    (error_text : Reply → Bytes) (redirect : Writer → Writer) (backends : Backends api_cache db)
    (round_trip : RoundTrip json) where
  open backends use {users}

  abbrev pub runs : Endpoint → Request → Writer → State W (Option Writer)
  runs =
      handler_of api_cache sessions db json decode_request env rand_int marshal notion decode
        error_text redirect

  -- The answer of the middleware to a request that it does not let through in `world`.
  abbrev pub Stops : Option Writer × W → Writer → W → Type 0
  Stops r w world =
      (message : Bytes) × (world' : W) × (r ≡ (some (http_error message 404 w), world'))
      × Coherent api_cache db json backends world'
      × (users world' ≡ users world)

  handler_of-Stops :
      (endpoint : Endpoint) (request : Request) (w : Writer) (world : W)
      → Coherent api_cache db json backends world
      → users world (request.header (codes "X-API-Key")) ≡ none
      → endpoint ≢ callback
      → endpoint ≢ fallback
      → Stops (runs endpoint request w world) w world
  unfolding handler_of
  handler_of-Stops ping request w world coherent absent n m =
      request_middleware-stops api_cache db json backends round_trip some _ request w world coherent
        absent
  handler_of-Stops bookmarks_add request w world coherent absent n m =
      request_middleware-stops api_cache db json backends round_trip some _ request w world coherent
        absent
  handler_of-Stops bookmarks_remove request w world coherent absent n m =
      request_middleware-stops api_cache db json backends round_trip some _ request w world coherent
        absent
  handler_of-Stops bookmarks_list request w world coherent absent n m =
      request_middleware-stops api_cache db json backends round_trip some _ request w world coherent
        absent
  handler_of-Stops auth_session request w world coherent absent n m =
      request_middleware-stops api_cache db json backends round_trip some _ request w world coherent
        absent
  handler_of-Stops callback request w world coherent absent n m = absurd (n refl)
  handler_of-Stops fallback request w world coherent absent n m = absurd (m refl)

  -- From a cache whose readable entries are the statuses of their users, a request that is routed
  -- to any handler but the callback of Notion and the fallback, and whose key belongs to no user,
  -- is answered with 404: no document of a user changes, and such a cache is left behind.
  pub serve-Stops :
      (endpoint : Endpoint) (request : Request) (w : Writer) (world : W)
      → Coherent api_cache db json backends world
      → users world (request.header (codes "X-API-Key")) ≡ none
      → route setup_routes request.path ≡ handled endpoint
      → endpoint ≢ callback
      → endpoint ≢ fallback
      → Stops
          (serve api_cache sessions db json decode_request env rand_int marshal notion decode
            error_text redirect request w world)
          w
          world
  unfolding serve after_route
  serve-Stops endpoint request w world coherent absent routed n m =
      rw routed (handler_of-Stops endpoint request w world coherent absent n m)
