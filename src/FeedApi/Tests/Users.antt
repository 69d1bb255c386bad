-- ===== src/FeedApi/Tests/Users.antt =====
-- Validation and middleware with one user.
use stockic_feed_api.Common.{◌≡◌, refl, sym, ◌∙◌, none, Bool, true, false, [], ◌∷◌, some}
use stockic_feed_api.Go.Http.{Request, fresh, http_error}
use stockic_feed_api.Go.Text.{Bytes, codes, str_eq}
use stockic_feed_api.Stores.Firestore.{Document, not_found, failed, snapshot, Firestore}
use stockic_feed_api.FeedApi.Handlers.Base.{Writer}
use stockic_feed_api.FeedApi.Handlers.Lists.{ping}
use stockic_feed_api.FeedApi.Middleware.{request_middleware}
use stockic_feed_api.FeedApi.Middleware.Access.{
  request_middleware-refuses, request_middleware-admits,
}
use stockic_feed_api.FeedApi.Models.{UserStatus}
use stockic_feed_api.FeedApi.UserStatus.{
  status, cache_key, cache_user_status, get_cached_user_status, premium_status,
  validate_user_api_key,
}
use stockic_feed_api.FeedApi.UserStatus.Backends.{Backends}
use stockic_feed_api.FeedApi.UserStatus.Coherence.{
  Coherent, IsRight, fetched, validate_user_api_key-IsRight,
}
use stockic_feed_api.FeedApi.Tests.Stores.{
  Memory, memory, at, memory-IsCache, one_user, payer, users, test_backends, test_json,
  test_json-RoundTrip,
}

-- A first validation reads Firestore and fills the cache.
first_validation :
    validate_user_api_key memory one_user test_json (codes "u1") []
    ≡ ((true, true), (cache_key (codes "u1"), 1 ∷ 1 ∷ []) ∷ [])
unfolding validate_user_api_key get_cached_user_status premium_status cache_user_status str_eq
first_validation = refl

unknown_user : (validate_user_api_key memory one_user test_json (codes "u2") []).0 ≡ (false, false)
unfolding validate_user_api_key get_cached_user_status premium_status cache_user_status str_eq
unknown_user = refl

empty-Coherent : Coherent memory one_user test_json test_backends []
empty-Coherent key x s cached read = cc

validate_user_api_key-IsRight_example :
    Coherent memory one_user test_json test_backends
      (validate_user_api_key memory one_user test_json (codes "u1") []).1
    × (users (validate_user_api_key memory one_user test_json (codes "u1") []).1 ≡ users [])
    × IsRight memory one_user test_json test_backends test_json-RoundTrip
        (codes "u1")
        []
        (fetched memory one_user test_json test_backends test_json-RoundTrip (codes "u1") [])
        (validate_user_api_key memory one_user test_json (codes "u1") []).0
validate_user_api_key-IsRight_example =
    validate_user_api_key-IsRight memory one_user test_json test_backends test_json-RoundTrip
      (codes "u1") [] empty-Coherent

abbrev sent_by : Bytes → Request
sent_by api_key = record {
  method = codes "GET";
  path = codes "/api/v2/ping";
  header = λ name. api_key;
  query = λ name. [];
  remote_addr = [];
  body = [];
}

abbrev w0 : Writer
w0 = fresh

request_middleware-refuses_example :
    (message : Bytes) × (world' : Memory) × (request_middleware memory one_user test_json ping
        (sent_by (codes "u2"))
        w0
        []
      ≡ some (http_error message 404 w0, [], world'))
    × Coherent memory one_user test_json test_backends world'
unfolding str_eq
request_middleware-refuses_example =
    request_middleware-refuses memory one_user test_json test_backends test_json-RoundTrip ping
      (sent_by (codes "u2")) w0 [] empty-Coherent refl

failed-not_found : {A : Type 0} → failed ≡ not_found → A
failed-not_found e = cc

failed-snapshot : {A : Type 0} {b : Bool} {d : Document} → failed ≡ snapshot b d → A
failed-snapshot e = cc

-- Firestore is down, but the cache has the user.
abbrev outage : Firestore Memory
outage = record one_user { get_doc = λ c id m. (failed, m) }

abbrev outage_backends : Backends memory outage
outage_backends = record {
  entries = at;
  users = users;
  is_cache = memory-IsCache;
  ping_users = λ w. refl;
  get_users = λ k w. refl;
  set_users = λ k v ttl w. refl;
  doc_users = λ c id w. refl;
  doc_entries = λ c id w. refl;
  not_found_absent = λ id w e. failed-not_found e;
  snapshot_present = λ id w e d h. failed-snapshot h;
}

abbrev cached : Memory
cached = (validate_user_api_key memory one_user test_json (codes "u1") []).1

cached-Coherent : Coherent memory outage test_json outage_backends cached
cached-Coherent =
    (validate_user_api_key-IsRight memory one_user test_json test_backends test_json-RoundTrip
      (codes "u1") [] empty-Coherent).0

hit :
    (get_cached_user_status memory outage test_json (codes "u1") cached).0 ≡ some (status true true)
unfolding validate_user_api_key get_cached_user_status premium_status cache_user_status str_eq
    cache_key
hit = refl

some-none : {A : Type 0} {s : UserStatus} → some s ≡ none → A
some-none e = cc

request_middleware-admits_example :
    (world' : Memory) × (request_middleware memory outage test_json ping
        (sent_by (codes "u1"))
        w0
        cached
      ≡ ping (sent_by (codes "u1")) w0 world')
    × Coherent memory outage test_json outage_backends world'
    × (users world' ≡ users cached)
unfolding str_eq
request_middleware-admits_example =
    request_middleware-admits memory outage test_json outage_backends test_json-RoundTrip ping
      (sent_by (codes "u1")) w0 cached cached-Coherent payer refl (λ e. cc)
      (λ missed. some-none (sym hit ∙ missed))
