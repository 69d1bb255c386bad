-- ===== src/Actions/Tests/Protocol.antt =====
-- The user u2 logs in to Notion, beside the user u1.
use mathlib.Core.List.{Memᴰ}
use mathlib.Core.List.Memᴰ
use stockic_feed_api.Common.{◌≡◌, inl, inr, refl, ap, true, false, [], ◌∷◌, some, Bool-cases}
use stockic_feed_api.Go.Http.{Request, fresh}
use stockic_feed_api.Go.Text.{Bytes, codes, str_eq}
use stockic_feed_api.Go.Text.Laws.{str_eq→eq, str_eq-false}
use stockic_feed_api.Stores.Firestore.{bool, other, Document}
use stockic_feed_api.Actions.Session.{generate_session_key}
use stockic_feed_api.Actions.Session.Protocol.{
  Trace, Services, Separate, begin, call_back, begins, calls_back, Reach, here, next,
}
use stockic_feed_api.Actions.Session.Protocol.Granted.{call_back-own, Reach-own}
use stockic_feed_api.Actions.Tests.Stores.{
  World, documents, test_db, at, test_sessions, test_sessions-IsCache,
}

abbrev services : Services World
services = record {
  env = λ name. codes "notion";
  rand_int = λ n w. (some 0, w);
  marshal = λ r. some [];
  notion = λ c b w. (some [], w);
  decode = λ s. inr other;
  error_text = λ r. [];
  sessions = test_sessions;
  db = test_db;
  entries = λ w. at w.sessions;
  users = λ w id. documents w (codes "users") id;
}

set_doc_entries :
    (id : Bytes) (d : Document) (w : World)
    → at (test_db.set_doc (codes "users") id d w).1.sessions ≡ at w.sessions
set_doc_entries id d w = elim (Bool-cases (str_eq id (codes "u1"))) [
  | inl known ↦ rw known refl
  | inr unknown ↦ rw unknown refl
]

set_doc_others :
    (id : Bytes) (d : Document) (w : World) (user : Bytes)
    → str_eq id user ≡ false
    → services.users (test_db.set_doc (codes "users") id d w).1 user ≡ services.users w user
set_doc_others id d w user differs = elim (Bool-cases (str_eq id (codes "u1"))) [
  | inr unknown ↦ rw unknown refl
  | inl known ↦ elim (Bool-cases (str_eq user (codes "u1"))) [
    | inr other_user ↦ rw (known, other_user) refl
    | inl same ↦ cc (rw (str_eq→eq user (codes "u1") same, known) at differs)
  ]
]

services-Separate : Separate services
services-Separate = record {
  cache = test_sessions-IsCache;
  rand_entries = λ n w. refl;
  rand_users = λ n w. refl;
  notion_entries = λ c b w. refl;
  notion_users = λ c b w. refl;
  get_users = λ k w. refl;
  set_users = λ k v ttl w. refl;
  doc_entries = set_doc_entries;
  doc_others = set_doc_others;
}

abbrev token : Bytes
token = codes "aaaaaaaaaaaaaaaaaaaaaaaaaaaaaaaa"

abbrev request : Request
request = record {
  method = codes "GET";
  path = [];
  header = λ name. codes "u2";
  query = λ name. token;
  remote_addr = [];
  body = [];
}

abbrev start : Trace World
start = record {
  world = record { sessions = []; user = some ((codes "premium-status", bool true) ∷ []) };
  granted = [];
}

abbrev asked : Trace World
asked = record {
  world = (begin services request fresh start.world).1;
  granted = (token, codes "u2") ∷ [];
}

abbrev done : Trace World
done = record asked { world = (call_back services request fresh asked.world).1 }

asked-Reach : Reach services start asked
unfolding str_eq generate_session_key
asked-Reach = next here (begins request fresh refl)

only_u2 : (k : Bytes) → ¬ Memᴰ {A = Bytes × Bytes} (k, codes "u1") ((token, codes "u2") ∷ [])
unfolding str_eq
only_u2 k m = elim (Memᴰ.cases_cons m) [
  | inl e ↦ str_eq-false {s = codes "u1"} {t = codes "u2"} refl (ap (λ p. p.1) e)
  | inr rest ↦ Memᴰ.not-nil rest
]

call_back-own_example :
    services.users (call_back services request fresh asked.world).1 (codes "u1")
    ≡ services.users asked.world (codes "u1")
call_back-own_example =
    call_back-own services services-Separate start asked request fresh (codes "u1") (λ k. refl)
      asked-Reach (only_u2 token)

Reach-own_example : services.users done.world (codes "u1") ≡ services.users start.world (codes "u1")
Reach-own_example =
    Reach-own services services-Separate start done (codes "u1") (λ k. refl)
      (next asked-Reach (calls_back request fresh refl)) only_u2
