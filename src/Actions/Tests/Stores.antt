-- ===== src/Actions/Tests/Stores.antt =====
-- A world with sessions in memory and at most one document, that of the user u1.
use stockic_feed_api.Common.{
  ◌≡◌, ◌⊎◌, inl, inr, refl, sym, Bool, true, false, List, [], ◌∷◌, Option, none, some,
  if◌then◌else◌, Bool-cases,
}
use stockic_feed_api.Common.State.{State}
use stockic_feed_api.Go.Text.{Bytes, codes, str_eq}
use stockic_feed_api.Go.Text.Laws.{str_eq→eq}
use stockic_feed_api.Stores.Firestore.{Document, snapshot, Firestore}
use stockic_feed_api.Stores.Firestore.Documents.{
  IsDocumentStore, union_field, remove_field, map_document, is_present,
}
use stockic_feed_api.FeedApi.Tests.Stores.{fetched_of}
use stockic_feed_api.Stores.Redis.{Redis, Reply, value, missing, IsCache}

abbrev pub Sessions : Type 0
Sessions = List (Bytes × Bytes)

pub record World : Type 0 where
  pub sessions : Sessions
  pub user : Option Document

abbrev pub documents : World → Bytes → Bytes → Option Document
documents w c id = if str_eq id (codes "u1") then w.user else none

abbrev pub update : (Document → Document) → Bytes → State World Bool
update f id w =
    if str_eq id (codes "u1")
    then (is_present w.user, record w { user = map_document f w.user })
    else (false, w)

abbrev replace : Document → Bytes → State World Bool
replace d id w = if str_eq id (codes "u1") then (true, record w { user = some d }) else (false, w)

abbrev pub test_db : Firestore World
test_db = record {
  get_doc = λ c id w. (fetched_of (documents w c id), w);
  query_first = λ c f v w. (none, w);
  add = λ c d w. (true, w);
  set_doc = λ c id d w. replace d id w;
  array_union = λ c id f s w. update (union_field f s) id w;
  array_remove = λ c id f s w. update (remove_field f s) id w;
}

fetched_of-snapshot :
    (o : Option Document) (d : Document) → fetched_of o ≡ snapshot true d → o ≡ some d
fetched_of-snapshot none d e = cc
fetched_of-snapshot (some c) d e = cc

replace_lem :
    (d : Document) (c id : Bytes) (w : World)
    → (replace d id w).0 ≡ true
    → documents (replace d id w).1 c id ≡ some d
replace_lem d c id w e = elim (Bool-cases (str_eq id (codes "u1"))) [
  | inl known ↦ rw known refl
  | inr unknown ↦ cc (rw unknown at e)
]

present : (o : Option Document) → is_present o ≡ true → (d : Document) × (o ≡ some d)
present none e = cc
present (some d) e = (d, refl)

update_lem :
    (f : Document → Document) (c id : Bytes) (w : World)
    → (update f id w).0 ≡ true
    → (d : Document) × (documents w c id ≡ some d) × (documents (update f id w).1 c id ≡ some (f d))
update_lem f c id w e = elim (Bool-cases (str_eq id (codes "u1"))) [
  | inl known ↦
      let (d, is_d) = present w.user (rw known at e) in (d, rw known is_d, rw (known, is_d) refl)
  | inr unknown ↦ cc (rw unknown at e)
]

pub test_db-IsDocumentStore : IsDocumentStore test_db documents
test_db-IsDocumentStore = record {
  get_reads = λ c id w d e. fetched_of-snapshot (documents w c id) d e;
  get_keeps = λ c id w. refl;
  set_replaces = λ c id d w e. replace_lem d c id w e;
  union_updates = λ c id f s w e. update_lem (union_field f s) c id w e;
  remove_updates = λ c id f s w e. update_lem (remove_field f s) c id w e;
}

abbrev pub at : Sessions → Bytes → Option Bytes
at [] key = none
at ((k, v) ∷ m) key = if str_eq k key then some v else at m key

abbrev reply_of : Option Bytes → Reply
reply_of none = missing
reply_of (some v) = value v

abbrev pub test_sessions : Redis World
test_sessions = record {
  ping = λ w. (true, w);
  get = λ k w. (reply_of (at w.sessions k), w);
  set = λ k v ttl w. (true, record w { sessions = (k, v) ∷ w.sessions });
  exists = λ k w. (0, w);
  incr = λ k w. (true, w);
  keys = λ p w. (some [], w);
  get_del = λ k w. (reply_of (at w.sessions k), w);
}

reply_of-value : (o : Option Bytes) (x : Bytes) → reply_of o ≡ value x → o ≡ some x
reply_of-value none x e = cc
reply_of-value (some v) x e = cc

at_head :
    (j v : Bytes) (m : Sessions) (k x : Bytes)
    → at ((j, v) ∷ m) k ≡ some x
    → ((k ≡ j) × (x ≡ v)) ⊎ (at m k ≡ some x)
at_head j v m k x e = elim (Bool-cases (str_eq j k)) [
  | inl same ↦ inl (sym (str_eq→eq j k same), cc (rw same at e))
  | inr differs ↦ inr (rw differs at e)
]

pub test_sessions-IsCache : IsCache test_sessions (λ w. at w.sessions)
test_sessions-IsCache = record {
  ping_keeps = λ w k x e. e;
  get_keeps = λ j w k x e. e;
  get_reads = λ k w x e. reply_of-value (at w.sessions k) x e;
  set_writes = λ j v ttl w k x e. at_head j v w.sessions k x e;
}
