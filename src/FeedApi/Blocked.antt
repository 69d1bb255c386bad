-- ===== src/FeedApi/Blocked.antt =====
-- `IsBlocked` and `SaveBlockedIPToFirebase` of feed-api/services/services.go, `GetClientIP` of
-- feed-api/utils/utils.go and `FallbackHandler` of feed-api/handlers/handlers.go.
pub mod Outcomes
pub mod Worlds
use stockic_feed_api.Common.{
  ℕ, Bool, true, false, List, [], ◌∷◌, Option, none, some, ltb, if◌then◌else◌,
}
use stockic_feed_api.Go.Http.{Request, http_error}
use stockic_feed_api.Go.Net.{has_byte, split_host}
use stockic_feed_api.Go.Text.{Bytes, codes}
use stockic_feed_api.Common.State.{State}
use stockic_feed_api.Stores.Firestore.{Value, text, other, Document, Firestore}
use stockic_feed_api.Stores.Redis.{Redis}
use stockic_feed_api.FeedApi.Handlers.Base.{Writer, Task, mark_blocked, Handler}

-- On an error the host is the empty text.
host_or_empty : Option Bytes → Bytes
host_or_empty none = []
host_or_empty (some host) = host

unfoldable pub get_client_ip : Request → Bytes
unfolding host_or_empty
get_client_ip request =
    if has_byte b':' request.remote_addr
    then host_or_empty (split_host request.remote_addr)
    else request.remote_addr

module _ {W : Type 0} (cache : Redis W) (db : Firestore W) where
  -- A document that is found is remembered in the cache, by a goroutine.
  after_query : Bytes → Option Bool → Bool × List Task
  after_query ip (some true) = (true, mark_blocked ip ∷ [])
  after_query ip _ = (false, [])

  unfoldable pub is_blocked : Bytes → State W (Bool × List Task)
  unfolding after_query
  is_blocked ip world =
      let (n, world') = cache.exists ip world in
      let (found, world'') = db.query_first (codes "blocked") (codes "ip") ip world' in
      if ltb 0 n then ((true, []), world') else (after_query ip found, world'')

  -- `other` is the time
  unfoldable pub save_blocked_ip_to_firebase : Bytes → State W Bool
  save_blocked_ip_to_firebase ip =
      db.add (codes "blocked") ((codes "ip", text ip) ∷ (codes "blockedAt", other) ∷ [])

  after_save : Writer → List Task → Bool × W → Option (Writer × List Task × W)
  after_save w tasks (true, world) =
      some (http_error (codes "Invalid Endpoint Accessed, You are Blocked") 404 w, tasks, world)
  after_save w tasks (false, world) =
      some (http_error (codes "Internal Server Error") 500 w, tasks, world)

  after_check : Bytes → Writer → (Bool × List Task) × W → Option (Writer × List Task × W)
  unfolding after_save
  after_check ip w ((true, tasks), world) =
      some (http_error (codes "You are Blocked") 403 w, tasks, world)
  after_check ip w ((false, tasks), world) =
      after_save w tasks (save_blocked_ip_to_firebase ip world)

  unfoldable pub fallback_handler : Handler W
  unfolding after_check
  fallback_handler request w world =
      let ip = get_client_ip request in after_check ip w (is_blocked ip world)
