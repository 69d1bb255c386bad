-- ===== src/Actions/Routes.antt =====
-- `setupRoutes` of actions/main.go.
pub mod Guarded
use stockic_feed_api.Common.{List, [], ◌∷◌, ◌⊎◌, Option, none, some, ℕ}
use stockic_feed_api.Common.State.{State, ◌>>=◌, pure}
use stockic_feed_api.Go.Http.{Request, http_error}
use stockic_feed_api.Go.Mux.{Table, Routed, handled, redirected, not_found, route}
use stockic_feed_api.Go.Text.{Bytes, codes}
use stockic_feed_api.Stores.Codec.{Codec}
use stockic_feed_api.Stores.Firestore.{Firestore, Value}
use stockic_feed_api.Stores.Redis.{Redis, Reply}
use stockic_feed_api.FeedApi.Models.{UserStatus}
use stockic_feed_api.Actions.Access.{request_middleware}
use stockic_feed_api.Actions.Base
use stockic_feed_api.Actions.Base.{Writer, Handler, fallback_handler}
use stockic_feed_api.Actions.Bookmarks.{add_bookmarks_handlers, remove_bookmarks, list_bookmarks}
use stockic_feed_api.Actions.Models.{BookmarkRequest}
use stockic_feed_api.Actions.Session.{
  TokenRequest, oauth_notion_create_auth_session, oauth_notion_callback,
}

-- The handlers of the table: those behind the middleware, the callback of Notion, and the fallback.
pub data Endpoint : Type 0 where
  ping bookmarks_add bookmarks_remove bookmarks_list auth_session callback fallback : Endpoint

-- with the VersionPrefix /api/v2/actions
unfoldable pub setup_routes : Table Endpoint
setup_routes =
    (codes "/api/v2/actions/ping", ping)
    ∷ (codes "/api/v2/actions/bookmarks-add", bookmarks_add)
    ∷ (codes "/api/v2/actions/bookmarks-remove", bookmarks_remove)
    ∷ (codes "/api/v2/actions/bookmarks-list", bookmarks_list)
    ∷ (codes "/api/v2/actions/notion/oauth/auth-session", auth_session)
    ∷ (codes "/api/v2/actions/notion/oauth/callback", callback)
    ∷ (codes "/", fallback)
    ∷ []

-- A handler that does not panic.
abbrev pub answered : {W : Type 0} → Handler W → Request → Writer → State W (Option Writer)
answered next request w = do w' ← next request w; pure (some w')

-- The parameters of the handlers are those of their modules; `redirect` is the response of net/http to
-- a path that only lacks its last slash. `none` is a panic.
module _ {W : Type 0} (api_cache sessions : Redis W) (db : Firestore W) (json : Codec UserStatus)
    (decode_request : Bytes → Option BookmarkRequest) (env : Bytes → Bytes)
    (rand_int : ℕ → State W (Option ℕ)) (marshal : TokenRequest → Option Bytes)
    (notion : Bytes → Bytes → State W (Option Bytes)) (decode : Bytes → Bytes ⊎ Value)
    (error_text : Reply → Bytes) (redirect : Writer → Writer) where
  abbrev pub guarded :
      (Request → Writer → State W (Option Writer)) → Request → Writer → State W (Option Writer)
  guarded = request_middleware api_cache db json some

  unfoldable pub handler_of : Endpoint → Request → Writer → State W (Option Writer)
  handler_of ping = guarded (answered Base.ping)
  handler_of bookmarks_add = guarded (answered (add_bookmarks_handlers db decode_request))
  handler_of bookmarks_remove = guarded (answered (remove_bookmarks db decode_request))
  handler_of bookmarks_list = guarded (answered (list_bookmarks db))
  handler_of auth_session = guarded (oauth_notion_create_auth_session env rand_int sessions)
  handler_of callback =
      answered (oauth_notion_callback env marshal notion decode error_text sessions db)
  handler_of fallback = answered fallback_handler

  unfoldable pub after_route : Routed Endpoint → Request → Writer → State W (Option Writer)
  after_route (handled endpoint) request w = handler_of endpoint request w
  after_route redirected request w = pure (some (redirect w))
  after_route not_found request w = pure (some (http_error (codes "404 page not found") 404 w))

  -- The server's answer to a request.
  unfoldable pub serve : Request → Writer → State W (Option Writer)
  serve request w = after_route (route setup_routes request.path) request w
