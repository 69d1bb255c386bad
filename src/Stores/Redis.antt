-- ===== src/Stores/Redis.antt =====
-- A Redis client, as go-redis is called here.
use stockic_feed_api.Common.{ℕ, Bool, ◌≡◌, ◌⊎◌, List, Option, some}
use stockic_feed_api.Common.State.{State}
use stockic_feed_api.Go.Text.{Bytes}

-- The result of a read: `missing` is `redis.Nil`, `failure` any other error.
pub data Reply : Type 0 where
  value : Bytes → Reply
  missing failure : Reply

-- A Boolean result says that there was no error.
pub record Redis (W : Type 0) : Type 0 where
  pub ping : State W Bool
  pub get : Bytes → State W Reply
  pub set : Bytes → Bytes → ℕ → State W Bool
  pub exists : Bytes → State W ℕ
  pub incr : Bytes → State W Bool
  pub keys : Bytes → State W (Option (List Bytes))
  pub get_del : Bytes → State W Reply

-- What the code relies on in a cache. Entries may be lost at any time, since they expire, but an
-- entry that is there was there before or was written by `set`.
pub record IsCache {W : Type 0} (r : Redis W) (entries : W → Bytes → Option Bytes) : Type 0 where
  pub ping_keeps : (w : W) (k x : Bytes) → entries (r.ping w).1 k ≡ some x → entries w k ≡ some x
  pub get_keeps :
      (j : Bytes) (w : W) (k x : Bytes) → entries (r.get j w).1 k ≡ some x → entries w k ≡ some x
  pub get_reads : (k : Bytes) (w : W) (x : Bytes) → (r.get k w).0 ≡ value x → entries w k ≡ some x
  pub set_writes :
      (j v : Bytes) (ttl : ℕ) (w : W) (k x : Bytes)
      → entries (r.set j v ttl w).1 k ≡ some x
      → ((k ≡ j) × (x ≡ v)) ⊎ (entries w k ≡ some x)
