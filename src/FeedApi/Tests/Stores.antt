-- ===== src/FeedApi/Tests/Stores.antt =====
-- Small stores for the tests: a cache in memory, and one user in Firestore.
use stockic_feed_api.Common.{
  ℕ, ◌≡◌, ◌⊎◌, inl, inr, refl, sym, Bool, true, false, List, [], ◌∷◌, Option, none, some,
  if◌then◌else◌, Bool-cases, ◌==◌,
}
use stockic_feed_api.Go.Text.{Bytes, codes, str_eq}
use stockic_feed_api.Go.Text.Laws.{str_eq→eq}
use stockic_feed_api.Stores.Codec.{Codec, RoundTrip}
use stockic_feed_api.Stores.Firestore.{bool, Document, Fetched, not_found, snapshot, Firestore}
use stockic_feed_api.Stores.Redis.{Redis, Reply, value, missing, IsCache}
use stockic_feed_api.FeedApi.Models.{UserStatus}
use stockic_feed_api.FeedApi.UserStatus.{status}
use stockic_feed_api.FeedApi.UserStatus.Backends.{Backends}

abbrev pub Memory : Type 0
Memory = List (Bytes × Bytes)

abbrev pub at : Memory → Bytes → Option Bytes
at [] key = none
at ((k, v) ∷ m) key = if str_eq k key then some v else at m key

abbrev pub reply_of : Option Bytes → Reply
reply_of none = missing
reply_of (some v) = value v

abbrev pub memory : Redis Memory
memory = record {
  ping = λ m. (true, m);
  get = λ k m. (reply_of (at m k), m);
  set = λ k v ttl m. (true, (k, v) ∷ m);
  exists = λ k m. (0, m);
  incr = λ k m. (true, m);
  keys = λ p m. (some [], m);
  get_del = λ k m. (reply_of (at m k), m);
}

reply_of-value : (o : Option Bytes) (x : Bytes) → reply_of o ≡ value x → o ≡ some x
reply_of-value none x e = cc
reply_of-value (some v) x e = cc

memory_set :
    (j v : Bytes) (m : Memory) (k x : Bytes)
    → at ((j, v) ∷ m) k ≡ some x
    → ((k ≡ j) × (x ≡ v)) ⊎ (at m k ≡ some x)
memory_set j v m k x e = elim (Bool-cases (str_eq j k)) [
  | inl same ↦ inl (sym (str_eq→eq j k same), cc (rw same at e))
  | inr other ↦ inr (rw other at e)
]

pub memory-IsCache : IsCache memory at
memory-IsCache = record {
  ping_keeps = λ w k x e. e;
  get_keeps = λ j w k x e. e;
  get_reads = λ k w x e. reply_of-value (at w k) x e;
  set_writes = λ j v ttl w k x e. memory_set j v w k x e;
}

-- One user, who pays.
abbrev pub payer : Document
payer = (codes "premium-status", bool true) ∷ []

abbrev pub users : Memory → Bytes → Option Document
users m id = if str_eq id (codes "u1") then some payer else none

abbrev pub fetched_of : Option Document → Fetched
fetched_of none = not_found
fetched_of (some d) = snapshot true d

abbrev pub one_user : Firestore Memory
one_user = record {
  get_doc = λ c id m. (fetched_of (users m id), m);
  query_first = λ c f v m. (none, m);
  add = λ c d m. (true, m);
  set_doc = λ c id d m. (true, m);
  array_union = λ c id f v m. (true, m);
  array_remove = λ c id f v m. (true, m);
}

pub fetched_of-not_found : (o : Option Document) → fetched_of o ≡ not_found → o ≡ none
fetched_of-not_found none e = refl
fetched_of-not_found (some d) e = cc

pub fetched_of-snapshot :
    (o : Option Document) (e : Bool) (d : Document)
    → fetched_of o ≡ snapshot e d
    → o ≡ (if e then some d else none)
fetched_of-snapshot none e d h = cc
fetched_of-snapshot (some c) true d h = cc
fetched_of-snapshot (some c) false d h = cc

abbrev pub test_backends : Backends memory one_user
test_backends = record {
  entries = at;
  users = users;
  is_cache = memory-IsCache;
  ping_users = λ w. refl;
  get_users = λ k w. refl;
  set_users = λ k v ttl w. refl;
  doc_users = λ c id w. refl;
  doc_entries = λ c id w. refl;
  not_found_absent = λ id w e. fetched_of-not_found (users w id) e;
  snapshot_present = λ id w e d h. fetched_of-snapshot (users w id) e d h;
}

abbrev bit : Bool → ℕ
bit true = 1
bit false = 0

abbrev bits : Bytes → Option UserStatus
bits (e ∷ p ∷ []) = some (status (e == 1) (p == 1))
bits _ = none

abbrev pub test_json : Codec UserStatus
test_json = record { marshal = λ s. some (bit s.exists ∷ bit s.premium ∷ []); unmarshal = bits }

abbrev bits_of : Bool → Bool → Bytes
bits_of e p = bit e ∷ bit p ∷ []

bits-bits_of : (e p : Bool) → bits (bits_of e p) ≡ some (status e p)
bits-bits_of true true = refl
bits-bits_of true false = refl
bits-bits_of false true = refl
bits-bits_of false false = refl

pub test_json-RoundTrip : RoundTrip test_json
test_json-RoundTrip a s e =
    let written : s ≡ bits_of a.exists a.premium = cc in
    rw written (bits-bits_of a.exists a.premium)
