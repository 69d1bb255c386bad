-- ===== src/FeedApi/Blocked/Worlds.antt =====
-- What the fallback of feed-api leaves of the world.
use stockic_feed_api.Common.{Bool, true, false, List, ltb, if◌then◌else◌}
use stockic_feed_api.Go.Text.{Bytes, codes}
use stockic_feed_api.Stores.Firestore.{Document, Firestore}
use stockic_feed_api.Stores.Redis.{Redis}
use stockic_feed_api.FeedApi.Blocked.{
  is_blocked, save_blocked_ip_to_firebase, after_save, after_check, fallback_handler, get_client_ip,
}
use stockic_feed_api.FeedApi.Handlers.Base.{Writer, Task}
use stockic_feed_api.FeedApi.Handlers.Ends.{Ends, Preserves}

module _ {W : Type 0} (cache : Redis W) (db : Firestore W) (P : W → Type 0)
    (exists_keeps : (k : Bytes) (w : W) → P w → P (cache.exists k w).1)
    (query_keeps : (f v : Bytes) (w : W) → P w → P (db.query_first (codes "blocked") f v w).1)
    (add_keeps : (d : Document) (w : W) → P w → P (db.add (codes "blocked") d w).1) where
  if-keeps : {A : Type 0} (b : Bool) (x y : A × W) → P x.1 → P y.1 → P (if b then x else y).1
  if-keeps true x y p q = p
  if-keeps false x y p q = q

  is_blocked-keeps : (ip : Bytes) (world : W) → P world → P (is_blocked cache db ip world).1
  unfolding is_blocked
  is_blocked-keeps ip world p =
      let (n, world') = cache.exists ip world in
      let asked = exists_keeps ip world p in
      if-keeps (ltb 0 n) _ _ asked (query_keeps (codes "ip") ip world' asked)

  after_save-Ends :
      (w : Writer) (tasks : List Task) (r : Bool × W)
      → P r.1
      → Ends P (after_save cache db w tasks r)
  unfolding after_save
  after_save-Ends w tasks (true, world) p = p
  after_save-Ends w tasks (false, world) p = p

  after_check-Ends :
      (ip : Bytes) (w : Writer) (r : (Bool × List Task) × W)
      → P r.1
      → Ends P (after_check cache db ip w r)
  unfolding after_check save_blocked_ip_to_firebase
  after_check-Ends ip w ((true, tasks), world) p = p
  after_check-Ends ip w ((false, tasks), world) p = after_save-Ends w tasks _ (add_keeps _ world p)

  pub fallback_handler-Preserves : Preserves P (fallback_handler cache db)
  unfolding fallback_handler
  fallback_handler-Preserves request w world p =
      let ip = get_client_ip request in
      after_check-Ends ip w (is_blocked cache db ip world) (is_blocked-keeps ip world p)
