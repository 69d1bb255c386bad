-- ===== src/Actions/Tests/Logins.antt =====
-- A login of one user to Notion.
use stockic_feed_api.Common.{
  ℕ, ◌<◌, ◌≡◌, ◌⊎◌, inr, refl, arith, zero, suc, true, false, [], ◌∷◌, Option, none, some,
}
use stockic_feed_api.Common.State.{State}
use stockic_feed_api.Go.Http.{
  Request, fresh, json, status_code, write, write_header, set_content_type,
}
use stockic_feed_api.Go.Text.{Bytes, codes, str_eq}
use stockic_feed_api.Go.Text.Laws.{str_eq_refl}
use stockic_feed_api.Stores.Firestore.{other, Value, Document, field, bool}
use stockic_feed_api.FeedApi.UserStatus.{status}
use stockic_feed_api.FeedApi.UserStatus.Backends.{status_of}
use stockic_feed_api.Actions.Base.{Writer}
use stockic_feed_api.Actions.Session.{
  generated, generate_session_key, store_session, oauth_notion_create_auth_session, TokenRequest,
  auth_response,
}
use stockic_feed_api.Actions.Session.Keys.{IsKey, generate_session_key-IsKey}
use stockic_feed_api.Actions.Session.Keyless.{oauth_notion_create_auth_session-adopts}
use stockic_feed_api.Actions.Session.Login.{
  login, credentials, oauth_notion_create_auth_session-binds, oauth_notion_callback-replaces,
}
use stockic_feed_api.Actions.Tests.Stores.{
  World, test_db, test_db-IsDocumentStore, test_sessions, test_sessions-IsCache, documents, at,
}

-- A random source that draws the greatest number below its bound.
abbrev draw_one : ℕ → State World (Option ℕ)
draw_one zero world = (none, world)
draw_one (suc n) world = (some n, world)

below : (n i : ℕ) (world : World) → (draw_one n world).0 ≡ some i → i < n
below zero i world e = cc
below (suc n) i world e = let same : n ≡ i = cc in omega arith

abbrev no_random : ℕ → State World (Option ℕ)
no_random n world = (none, world)

abbrev env : Bytes → Bytes
env name = codes "https://notion.test/?x"

abbrev paid : Document
paid = (codes "premium-status", bool true) ∷ []

abbrev world : World
world = record { sessions = (codes "k", codes "u1") ∷ []; user = some paid }

short_key : (generate_session_key draw_one 3 (codes "abc") world).0 ≡ generated (codes "ccc")
unfolding generate_session_key
short_key = refl

generate_session_key-IsKey_example :
    IsKey (codes "abc") 3 (generate_session_key draw_one 3 (codes "abc") world).0
generate_session_key-IsKey_example = generate_session_key-IsKey draw_one below (codes "abc") 3 world

abbrev request : Bytes → Request
request state = record {
  method = codes "GET";
  path = [];
  header = λ name. codes "u1";
  query = λ name. state;
  remote_addr = [];
  body = [];
}

abbrev marshal : TokenRequest → Option Bytes
marshal r = some []

abbrev notion : Bytes → Bytes → State World (Option Bytes)
notion c body w = (some [], w)

abbrev decode : Bytes → Bytes ⊎ Value
decode s = inr other

abbrev found : Document
found = credentials env marshal notion decode (λ r. []) test_sessions test_db other

-- A callback of another user, without a state.
abbrev stranger : Request
stranger = record {
  method = codes "GET";
  path = [];
  header = λ name. codes "u2";
  query = λ name. [];
  remote_addr = [];
  body = [];
}

abbrev keyless_world : World
keyless_world = record world { sessions = ([], codes "u1") ∷ world.sessions }

abbrev refusal : Writer
refusal =
    (write (json (auth_response true (codes "nil&state="))) (
      write_header 200
        (write (json (auth_response false (codes "nil")))
          (write_header 404 (set_content_type (codes "application/json") fresh))).1)).1

oauth_notion_create_auth_session-adopts_example :
    (status_code refusal ≡ 404)
    × (documents
          (login env marshal notion decode (λ r. []) test_sessions test_db stranger keyless_world).1
          (codes "users")
          (codes "u1")
        ≡ some found)
unfolding str_eq generate_session_key oauth_notion_create_auth_session store_session write
    write_header set_content_type
oauth_notion_create_auth_session-adopts_example =
    oauth_notion_create_auth_session-adopts env no_random marshal notion decode (λ r. [])
      test_sessions test_db (λ w. at w.sessions) test_sessions-IsCache
      (λ k v ttl w e. rw str_eq_refl refl) (λ c b w. refl) documents test_db-IsDocumentStore
      (request []) stranger world keyless_world keyless_world keyless_world refusal [] []
      (codes "u1") other refl refl refl refl refl refl refl refl refl refl

oauth_notion_callback-replaces_example :
    (documents
        (login env marshal notion decode
          (λ r. [])
          test_sessions
          test_db
          (request (codes "k"))
          world).1
        (codes "users")
        (codes "u1")
      ≡ some found)
    × (status_of (some found) ≡ status true false)
    × (field (codes "bookmarks") found ≡ none)
    × (status_code
          (login env marshal notion decode
            (λ r. [])
            test_sessions
            test_db
            (request (codes "k"))
            world).0
        ≡ 200)
unfolding str_eq
oauth_notion_callback-replaces_example =
    oauth_notion_callback-replaces env marshal notion decode (λ r. []) test_sessions test_db
      documents test_db-IsDocumentStore (request (codes "k")) world world world [] [] (codes "u1")
      other refl refl refl refl refl

abbrev nines : Bytes
nines = codes "99999999999999999999999999999999"

oauth_notion_create_auth_session-binds_example : codes "u1" ≡ codes "u1"
unfolding oauth_notion_create_auth_session store_session generate_session_key str_eq
oauth_notion_create_auth_session-binds_example =
    oauth_notion_create_auth_session-binds env draw_one test_sessions (λ w. at w.sessions)
      test_sessions-IsCache (request []) fresh world nines (codes "u1") refl refl refl refl
