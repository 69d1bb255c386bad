-- ===== src/FeedApi/Tests/Blocking.antt =====
-- An address that is blocked by its first invalid request.
use stockic_feed_api.Common.{
  ◌≡◌, refl, Bool, true, false, ◌&&◌, List, [], ◌∷◌, Option, none, some, if◌then◌else◌,
}
use stockic_feed_api.Go.Http.{Request, fresh, http_error}
use stockic_feed_api.Go.Net.{has_byte, split_host}
use stockic_feed_api.Go.Text.{Bytes, codes, str_eq}
use stockic_feed_api.Go.Text.Laws.{str_eq_refl}
use stockic_feed_api.Stores.Firestore.{Value, text, Document, field, Firestore, not_found}
use stockic_feed_api.Stores.Redis.{Redis, missing}
use stockic_feed_api.FeedApi.Blocked.{
  get_client_ip, is_blocked, save_blocked_ip_to_firebase, fallback_handler,
}
use stockic_feed_api.FeedApi.Blocked.Outcomes.{
  FindsAdded, Answered, fallback_handler-blocked, fallback_handler_twice,
}
use stockic_feed_api.FeedApi.Handlers.Base.{Writer}

-- The world has the documents of all collections.
abbrev World : Type 0
World = List (Bytes × Document)

abbrev empty_cache : Redis World
empty_cache = record {
  ping = λ w. (true, w);
  get = λ k w. (missing, w);
  set = λ k v ttl w. (true, w);
  exists = λ k w. (0, w);
  incr = λ k w. (true, w);
  keys = λ p w. (some [], w);
  get_del = λ k w. (missing, w);
}

abbrev holds : Bytes → Option Value → Bool
holds s (some (text t)) = str_eq t s
holds s _ = false

abbrev find : Bytes → Bytes → Bytes → World → Option Bool
find c name s [] = none
find c name s ((k, d) ∷ w) =
    if str_eq k c && holds s (field name d) then some true else find c name s w

abbrev documents : Firestore World
documents = record {
  get_doc = λ c id w. (not_found, w);
  query_first = λ c name s w. (find c name s w, w);
  add = λ c d w. (true, (c, d) ∷ w);
  set_doc = λ c id d w. (true, w);
  array_union = λ c id f v w. (true, w);
  array_remove = λ c id f v w. (true, w);
}

documents-FindsAdded : FindsAdded empty_cache documents
documents-FindsAdded c name s j d w there e = rw (there, str_eq_refl, str_eq_refl) refl

abbrev intruder : Request
intruder = record {
  method = codes "GET";
  path = codes "/admin";
  header = λ name. [];
  query = λ name. [];
  remote_addr = codes "10.0.0.7:5120";
  body = [];
}

abbrev w0 : Writer
w0 = fresh

address_test : get_client_ip intruder ≡ codes "10.0.0.7"
unfolding get_client_ip has_byte split_host
address_test = refl

bracket_tests :
    (split_host (codes "[::1]:80") ≡ some (codes "::1"))
    × (split_host (codes "::1:80") ≡ none)
    × (split_host (codes "[::1]") ≡ none)
    × (split_host (codes "h:") ≡ some (codes "h"))
unfolding split_host
bracket_tests = (refl, refl, refl, refl)

abbrev stored : World
stored = (codes "blocked", (codes "ip", text (codes "10.0.0.7")) ∷ []) ∷ []

blocked_test : (is_blocked empty_cache documents (get_client_ip intruder) stored).0.0 ≡ true
unfolding is_blocked get_client_ip has_byte split_host str_eq
blocked_test = refl

fresh_test : (is_blocked empty_cache documents (get_client_ip intruder) []).0 ≡ (false, [])
unfolding is_blocked get_client_ip has_byte split_host str_eq
fresh_test = refl

saved_test :
    (save_blocked_ip_to_firebase empty_cache documents
      (get_client_ip intruder)
      (is_blocked empty_cache documents (get_client_ip intruder) []).1).0
    ≡ true
unfolding save_blocked_ip_to_firebase
saved_test = refl

fallback_handler-blocked_example :
    fallback_handler empty_cache documents intruder w0 stored
    ≡ some (
      http_error (codes "You are Blocked") 403 w0,
      (is_blocked empty_cache documents (get_client_ip intruder) stored).0.1,
      (is_blocked empty_cache documents (get_client_ip intruder) stored).1,
    )
fallback_handler-blocked_example =
    fallback_handler-blocked empty_cache documents intruder w0 stored blocked_test

fallback_handler_twice_example :
    (world' : World) × (fallback_handler empty_cache documents intruder w0 []
      ≡ some (http_error (codes "Invalid Endpoint Accessed, You are Blocked") 404 w0, [], world'))
    × Answered
        (fallback_handler empty_cache documents intruder w0 world')
        (http_error (codes "You are Blocked") 403 w0)
unfolding save_blocked_ip_to_firebase
fallback_handler_twice_example =
    fallback_handler_twice empty_cache documents intruder w0 [] intruder w0 documents-FindsAdded
      refl fresh_test saved_test
