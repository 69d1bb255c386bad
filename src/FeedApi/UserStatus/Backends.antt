-- ===== src/FeedApi/UserStatus/Backends.antt =====
-- What the stores of feed-api hold, and the status that a user's document stands for.
use stockic_feed_api.Common.{ℕ, ◌≡◌, Bool, true, false, Option, none, some, if◌then◌else◌}
use stockic_feed_api.Go.Text.{Bytes, codes}
use stockic_feed_api.Stores.Firestore.{Document, not_found, snapshot, Firestore}
use stockic_feed_api.Stores.Redis.{Redis, IsCache}
use stockic_feed_api.FeedApi.Models.{UserStatus}
use stockic_feed_api.FeedApi.UserStatus.{cache_key, premium_status, status}

-- The content of the two stores, and what their operations do to it. The operations of one store
-- leave the other alone, and reading users does not change them.
pub record Backends {W : Type 0} (cache : Redis W) (db : Firestore W) : Type 0 where
  pub entries : W → Bytes → Option Bytes
  pub users : W → Bytes → Option Document
  pub is_cache : IsCache cache entries
  pub ping_users : (w : W) → users (cache.ping w).1 ≡ users w
  pub get_users : (k : Bytes) (w : W) → users (cache.get k w).1 ≡ users w
  pub set_users : (k v : Bytes) (ttl : ℕ) (w : W) → users (cache.set k v ttl w).1 ≡ users w
  pub doc_users : (c id : Bytes) (w : W) → users (db.get_doc c id w).1 ≡ users w
  pub doc_entries : (c id : Bytes) (w : W) → entries (db.get_doc c id w).1 ≡ entries w
  pub not_found_absent :
      (id : Bytes) (w : W) → (db.get_doc (codes "users") id w).0 ≡ not_found → users w id ≡ none
  pub snapshot_present :
      (id : Bytes) (w : W) (e : Bool) (d : Document)
      → (db.get_doc (codes "users") id w).0 ≡ snapshot e d
      → users w id ≡ (if e then some d else none)

-- The status that a user's document stands for.
abbrev pub premium_of : Option Bool → Bool
premium_of none = false
premium_of (some p) = p

abbrev pub status_of : Option Document → UserStatus
status_of none = status false false
status_of (some d) = status true (premium_of (premium_status d))

pub cache_key_injective : (a b : Bytes) → cache_key a ≡ cache_key b → a ≡ b
unfolding cache_key
cache_key_injective a b h = cc
