-- ===== src/LogPusher/Shared.antt =====
-- The synchronisations of feed-api and log-redis-pusher at work on one Redis, while detail requests
-- count: steps in any order. A step is a call of Redis that succeeds with what the code does with its
-- result, or the upload of a map at the end of a round.
pub mod Tally
pub mod Conserved
use mathlib.Core.List.{Permᴰ}
use stockic_feed_api.Common.{
  ℕ, ◌+◌, ◌≡◌, ◌≢◌, Bool, true, false, ◌&&◌, List, [], ◌∷◌, Option, some, if◌then◌else◌,
}
use stockic_feed_api.Common.State.{State}
use stockic_feed_api.Go.Text.{Bytes, str_eq}
use stockic_feed_api.Go.Text.Laws.{Lacks}
use stockic_feed_api.Stores.Minio.{Minio, Clock}
use stockic_feed_api.Stores.Redis.{Redis, value, missing, failure}
use stockic_feed_api.FeedApi.Handlers.Detail.{redis_key}
use stockic_feed_api.FeedApi.LogSync.{LogData, Grouped, parse_key, take_count, upload}

-- The number of reads of `news_id` by `api_key` that were counted, the maps of the two services in
-- their rounds, and the sum of the counts in the maps that they have handed to the upload.
pub record System (W : Type 0) : Type 0 where
  pub world : W
  pub counted : ℕ
  pub left : Grouped
  pub right : Grouped
  pub handed : ℕ

-- What the code relies on in Redis: the value of a counter, `number` of its text.
pub record IsCounter {W : Type 0} (log : Redis W) (counts : W → Bytes → ℕ) (number : Bytes → ℕ)
    : Type 0 where
  pub incr_adds :
      (k : Bytes) (w : W) → (log.incr k w).0 ≡ true → counts (log.incr k w).1 k ≡ counts w k + 1
  pub incr_others : (j k : Bytes) (w : W) → j ≢ k → counts (log.incr j w).1 k ≡ counts w k
  pub take_reads :
      (k s : Bytes) (w : W)
      → (log.get_del k w).0 ≡ value s
      → (number s ≡ counts w k) × (counts (log.get_del k w).1 k ≡ 0)
  pub take_misses :
      (k j : Bytes) (w : W)
      → (log.get_del k w).0 ≡ missing
      → counts (log.get_del k w).1 j ≡ counts w j
  pub take_others : (j k : Bytes) (w : W) → j ≢ k → counts (log.get_del j w).1 k ≡ counts w k

module _ {W : Type 0} (log : Redis W) (minio : Minio W) (clock : Clock W)
    (marshal : List LogData → Option Bytes) (number : Bytes → ℕ) (news_id api_key : Bytes) where
  abbrev pub sum : List LogData → ℕ
  sum [] = 0
  sum (d ∷ ds) = (if str_eq d.news_id news_id then number d.access_count else 0) + sum ds

  -- The counts of the article and the user in a map.
  abbrev pub tally : Grouped → ℕ
  tally [] = 0
  tally ((k, ds) ∷ g) = (if str_eq k api_key then sum ds else 0) + tally g

  abbrev pub is_ours : Bytes → Bytes → ℕ
  is_ours n u = if str_eq n news_id && str_eq u api_key then 1 else 0

  pub data Step (s : System W) (t : System W) : Type 0 where
    -- a detail request of any user
    count :
        (n u : Bytes)
        → Lacks b'/' n
        → Lacks b'/' u
        → (log.incr (redis_key n u) s.world).0 ≡ true
        → t ≡ record s {
          world = (log.incr (redis_key n u) s.world).1;
          counted = s.counted + is_ours n u;
        }
        → Step s t
    -- one service takes a counter
    take_left :
        (n u : Bytes) (g : Grouped) (w : W)
        → Lacks b'/' n
        → Lacks b'/' u
        → (log.get_del (redis_key n u) s.world).0 ≢ failure
        → take_count log clock (redis_key n u) s.left (parse_key (redis_key n u)) s.world ≡ (g, w)
        → t ≡ record s { world = w; left = g }
        → Step s t
    take_right :
        (n u : Bytes) (g : Grouped) (w : W)
        → Lacks b'/' n
        → Lacks b'/' u
        → (log.get_del (redis_key n u) s.world).0 ≢ failure
        → take_count log clock (redis_key n u) s.right (parse_key (redis_key n u)) s.world ≡ (g, w)
        → t ≡ record s { world = w; right = g }
        → Step s t
    -- the end of a round, in any order of the map
    upload_left :
        (g : Grouped)
        → Permᴰ s.left g
        → t ≡ record s {
          world = (upload minio clock marshal g s.world).1;
          left = [];
          handed = s.handed + tally s.left;
        }
        → Step s t
    upload_right :
        (g : Grouped)
        → Permᴰ s.right g
        → t ≡ record s {
          world = (upload minio clock marshal g s.world).1;
          right = [];
          handed = s.handed + tally s.right;
        }
        → Step s t

  pub data Reach (s : System W) : System W → Type 0 where
    here : Reach s s
    next : {t u : System W} → Reach s t → Step t u → Reach s u
