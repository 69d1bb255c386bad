-- ===== src/FeedApi/Server.antt =====
-- The server of feed-api at work: requests, goroutines of the handlers, and entries of the cache that
-- expire, in any order.
pub mod Refused
use stockic_feed_api.Common.{
  ℕ, ◌*◌, ◌^◌, ◌≡◌, Bool, true, false, List, [], ◌∷◌, ◌++◌, Option, none, some, if◌then◌else◌,
}
use stockic_feed_api.Common.State.{State}
use stockic_feed_api.Go.Http.{Request}
use stockic_feed_api.Go.Text.{Bytes, codes}
use stockic_feed_api.Stores.Codec.{Codec}
use stockic_feed_api.Stores.Firestore.{Document, Firestore}
use stockic_feed_api.Stores.Redis.{Redis}
use stockic_feed_api.FeedApi.FindArticle.{News}
use stockic_feed_api.FeedApi.Handlers.Base.{Writer, Task, increment, mark_blocked}
use stockic_feed_api.FeedApi.Models.{UserStatus}
use stockic_feed_api.FeedApi.Routes.{serve}
use stockic_feed_api.FeedApi.UserStatus.Backends.{Backends}

-- One hour in nanoseconds.
abbrev hour : ℕ
hour = 3600 * 10 ^ 9

-- What a goroutine does; an error of Redis is only logged.
unfoldable pub run_task : {W : Type 0} → Redis W → Redis W → Task → State W Bool
run_task api_cache log (increment key) = log.incr key
run_task api_cache log (mark_blocked ip) = api_cache.set ip (codes "blocked") hour

-- The world, and the goroutines that have not run yet.
pub record Server (W : Type 0) : Type 0 where
  pub world : W
  pub pending : List Task

module _ {W : Type 0} (api_cache news_cache log : Redis W) (db : Firestore W)
    (backends : Backends api_cache db) where
  open backends use {entries, users}

  -- The cache of statuses at most lost entries, and the users are the same.
  abbrev pub Kept : W → W → Type 0
  Kept w w' = ((k x : Bytes) → entries w' k ≡ some x → entries w k ≡ some x) × (users w' ≡ users w)

  -- What the code relies on in the calls that do not validate: they write no status and no user.
  pub record Quiet : Type 0 where
    pub exists_keeps : (k : Bytes) (w : W) → Kept w (api_cache.exists k w).1
    pub query_keeps : (f v : Bytes) (w : W) → Kept w (db.query_first (codes "blocked") f v w).1
    pub add_keeps : (d : Document) (w : W) → Kept w (db.add (codes "blocked") d w).1
    pub news_keeps : (k : Bytes) (w : W) → Kept w (news_cache.get k w).1
    pub count_keeps : (k : Bytes) (w : W) → Kept w (log.incr k w).1

  module _ (json : Codec UserStatus) (codec : Codec News) (redirect : Writer → Writer) where
    pub data Step (s : Server W) (t : Server W) : Type 0 where
      -- a request whose handler does not panic
      answers :
          (request : Request) (w w' : Writer) (tasks : List Task) (world : W)
          → serve api_cache news_cache db json codec redirect request w s.world
            ≡ some (w', tasks, world)
          → t ≡ record { world = world; pending = tasks ++ s.pending }
          → Step s t
      -- any goroutine that was started
      runs :
          (before after : List Task) (task : Task)
          → s.pending ≡ before ++ (task ∷ after)
          → t
            ≡ record { world = (run_task api_cache log task s.world).1; pending = before ++ after }
          → Step s t
      expires : (w : W) → Kept s.world w → t ≡ record s { world = w } → Step s t

    pub data Reach (s : Server W) : Server W → Type 0 where
      here : Reach s s
      next : {t u : Server W} → Reach s t → Step t u → Reach s u
