-- ===== src/EndToEnd/Tests/Statuses.antt =====
-- A user who pays is validated, adds a bookmark and removes it again.
use stockic_feed_api.Common.{
  ◌≡◌, ◌⊎◌, inl, inr, refl, true, [], ◌∷◌, Option, some, Bool-cases, Option-cases,
}
use stockic_feed_api.Go.Http.{Request, fresh}
use stockic_feed_api.Go.Text.{Bytes, codes, str_eq}
use stockic_feed_api.Stores.Firestore.{Document, bool}
use stockic_feed_api.Stores.Firestore.Documents.{union_field, remove_field}
use stockic_feed_api.FeedApi.Tests.Stores.{
  fetched_of-not_found, fetched_of-snapshot, test_json, test_json-RoundTrip,
}
use stockic_feed_api.FeedApi.UserStatus.{
  validate_user_api_key, get_cached_user_status, premium_status, cache_user_status,
}
use stockic_feed_api.FeedApi.UserStatus.Backends.{Backends}
use stockic_feed_api.FeedApi.UserStatus.Coherence.{Coherent}
use stockic_feed_api.Actions.Bookmarks.{add_bookmarks_handlers, remove_bookmarks}
use stockic_feed_api.Actions.Bookmarks.Statuses.{Updates}
use stockic_feed_api.Actions.Models.{BookmarkRequest}
use stockic_feed_api.Actions.Tests.Stores.{
  World, documents, update, test_db, at, test_sessions, test_sessions-IsCache,
}
use stockic_feed_api.EndToEnd.Status.{validated, added, removed, Reach, here, next}
use stockic_feed_api.EndToEnd.Status.Kept.{Kept, Reach-Kept}

abbrev users : World → Bytes → Option Document
users w id = documents w (codes "users") id

abbrev backends : Backends test_sessions test_db
backends = record {
  entries = λ w. at w.sessions;
  users = users;
  is_cache = test_sessions-IsCache;
  ping_users = λ w. refl;
  get_users = λ k w. refl;
  set_users = λ k v ttl w. refl;
  doc_users = λ c id w. refl;
  doc_entries = λ c id w. refl;
  not_found_absent = λ id w e. fetched_of-not_found (users w id) e;
  snapshot_present = λ id w e d h. fetched_of-snapshot (users w id) e d h;
}

update_entries :
    (f : Document → Document) (id : Bytes) (w : World)
    → at (update f id w).1.sessions ≡ at w.sessions
update_entries f id w = elim (Bool-cases (str_eq id (codes "u1"))) [
  | inl known ↦ rw known refl
  | inr unknown ↦ rw unknown refl
]

update_users :
    (f : Document → Document) (id : Bytes) (w : World) (key : Bytes)
    → (users (update f id w).1 key ≡ users w key)
      ⊎ ((d : Document) × (users w key ≡ some d) × (users (update f id w).1 key ≡ some (f d)))
update_users f id w key = elim (Bool-cases (str_eq id (codes "u1"))) [
  | inr unknown ↦ inl (rw unknown refl)
  | inl known ↦ elim (Bool-cases (str_eq key (codes "u1"))) [
    | inr other ↦ inl (rw (known, other) refl)
    | inl same ↦ elim (Option-cases w.user) [
      | inl absent ↦ inl (rw (known, same, absent) refl)
      | inr (d, is_d) ↦ inr (d, rw same is_d, rw (known, same, is_d) refl)
    ]
  ]
]

updates : Updates backends
updates = record {
  union_entries = λ id f s w. update_entries (union_field f s) id w;
  remove_entries = λ id f s w. update_entries (remove_field f s) id w;
  union_users = λ id f s w key. update_users (union_field f s) id w key;
  remove_users = λ id f s w key. update_users (remove_field f s) id w key;
}

abbrev decode : Bytes → Option BookmarkRequest
decode s = some (record { news_id = s })

abbrev request : Bytes → Request
request method = record {
  method = method;
  path = [];
  header = λ name. codes "u1";
  query = λ name. [];
  remote_addr = [];
  body = codes "n7";
}

abbrev start : World
start = record { sessions = []; user = some ((codes "premium-status", bool true) ∷ []) }

abbrev seen : World
seen = (validate_user_api_key test_sessions test_db test_json (codes "u1") start).1

abbrev saved : World
saved = (add_bookmarks_handlers test_db decode (request (codes "POST")) fresh seen).1

abbrev end : World
end = (remove_bookmarks test_db decode (request (codes "DELETE")) fresh saved).1

run : Reach test_sessions test_db test_json decode start end
unfolding validate_user_api_key str_eq get_cached_user_status premium_status cache_user_status
run =
    next
      (next (next here (validated (codes "u1") refl))
        (added (request (codes "POST")) fresh (λ req e. refl) refl))
      (removed (request (codes "DELETE")) fresh refl)

start-Coherent : Coherent test_sessions test_db test_json backends start
start-Coherent key x s cached read = cc

Reach-Kept_example :
    Kept test_sessions test_db test_json decode backends updates test_json-RoundTrip start end
Reach-Kept_example =
    Reach-Kept test_sessions test_db test_json decode backends updates test_json-RoundTrip start end
      run start-Coherent
