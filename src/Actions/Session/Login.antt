-- ===== src/Actions/Session/Login.antt =====
-- What a login to Notion stores.
use stockic_feed_api.Common.{
  ℕ, ◌≡◌, ◌≢◌, ◌⊎◌, inl, inr, refl, ap, ◌∙◌, true, false, [], ◌∷◌, Option, none, some,
}
use stockic_feed_api.Common.State.{State}
use stockic_feed_api.Go.Http.{
  Request, fresh, status_code, json, commit, write, write_header, set_content_type,
}
use stockic_feed_api.Go.Text.{Bytes, codes, str_eq}
use stockic_feed_api.Stores.Firestore.{Value, Document, field, Firestore}
use stockic_feed_api.Stores.Firestore.Documents.{IsDocumentStore}
use stockic_feed_api.Stores.Redis.{Redis, Reply, value, missing, failure, IsCache}
use stockic_feed_api.FeedApi.UserStatus.{premium_status, status}
use stockic_feed_api.FeedApi.UserStatus.Backends.{status_of}
use stockic_feed_api.Actions.Base.{Writer}
use stockic_feed_api.Actions.Session.{
  Generated, generated, error, generate_session_key, notion_session_charset,
  notion_session_key_length, notion_session_expiration, auth_response, after_url, store_session,
  after_key, oauth_notion_create_auth_session, TokenRequest, after_session, after_auth,
  after_notion, send_request, basic_credentials, token_request, oauth_notion_callback,
}

module _ {W : Type 0} (env : Bytes → Bytes) (rand_int : ℕ → State W (Option ℕ))
    (sessions : Redis W) where
  abbrev pub new_key : State W Generated
  new_key = generate_session_key rand_int notion_session_key_length notion_session_charset

  -- If a key is made that no session has, a session with this key after the request holds the API
  -- key of the request.
  pub oauth_notion_create_auth_session-binds :
      (entries : W → Bytes → Option Bytes) (cache : IsCache sessions entries) (request : Request)
      (w : Writer) (world : W) (token x : Bytes)
      → str_eq (env (codes "NOTION_OAUTH_URL")) [] ≡ false
      → (new_key world).0 ≡ generated token
      → entries (new_key world).1 token ≡ none
      → entries (oauth_notion_create_auth_session env rand_int sessions request w world).1 token
        ≡ some x
      → x ≡ request.header (codes "X-API-Key")
  unfolding oauth_notion_create_auth_session after_key store_session
  oauth_notion_create_auth_session-binds entries cache request w world token x url made unused
        found =
      elim (cache.set_writes token (request.header (codes "X-API-Key")) notion_session_expiration
        (new_key world).1 token x (rw (url, made) at found)) [
          | inl written ↦ written.1
          | inr old ↦ cc
        ]

  -- If no key can be made, the answer has the status 404 and two JSON values, of which the second
  -- claims success, and the API key is stored as the session of the empty key.
  pub oauth_notion_create_auth_session-no_key :
      (request : Request) (world : W)
      → str_eq (env (codes "NOTION_OAUTH_URL")) [] ≡ false
      → (new_key world).0 ≡ error
      → (answer : Writer) × (oauth_notion_create_auth_session env rand_int sessions request fresh
            world
          ≡ (
            some answer,
            (sessions.set []
                (request.header (codes "X-API-Key"))
                notion_session_expiration
                (new_key world).1).1,
          ))
        × (status_code answer ≡ 404)
        × (answer.body
            ≡ json (auth_response false (codes "nil"))
              ∷ json (auth_response true (codes "nil&state="))
              ∷ [])
  unfolding oauth_notion_create_auth_session after_key store_session after_url write write_header
      set_content_type commit
  oauth_notion_create_auth_session-no_key request world url failed = (
    after_url env rand_int sessions (
        write (json (auth_response true (codes "nil&state="))) (
          write_header 200
            (write (json (auth_response false (codes "nil")))
              (write_header 404 (set_content_type (codes "application/json") fresh))).1)),
    rw (url, failed) refl,
    refl,
    refl,
  )

module _ {W : Type 0} (env : Bytes → Bytes) (marshal : TokenRequest → Option Bytes)
    (notion : Bytes → Bytes → State W (Option Bytes)) (decode : Bytes → Bytes ⊎ Value)
    (error_text : Reply → Bytes) (sessions : Redis W) (db : Firestore W) where
  -- The callback of a request, as a run of the code.
  abbrev pub login : Request → W → Writer × W
  login request =
      oauth_notion_callback env marshal notion decode error_text sessions db request fresh

  -- What the document of a user holds after a login.
  abbrev pub credentials : Value → Document
  credentials auth_result = (codes "NotionCredentials", auth_result) ∷ []

  -- If Notion answers with a JSON object and the session of the state is known, a callback that stores
  -- it leaves in the document of the session's user the credentials of Notion and nothing else: the
  -- user is no longer premium and has no bookmarks.
  pub oauth_notion_callback-replaces :
      (documents : W → Bytes → Bytes → Option Document) (store : IsDocumentStore db documents)
      (request : Request) (world world_1 world_2 : W) (body answer key : Bytes)
      (auth_result : Value)
      → marshal (
          token_request env marshal notion decode error_text sessions db
            (request.query (codes "code")))
        ≡ some body
      → notion (basic_credentials env marshal notion decode error_text sessions db) body world
        ≡ (some answer, world_1)
      → decode answer ≡ inr auth_result
      → sessions.get (request.query (codes "state")) world_1 ≡ (value key, world_2)
      → (db.set_doc (codes "users") key (credentials auth_result) world_2).0 ≡ true
      → (documents (login request world).1 (codes "users") key ≡ some (credentials auth_result))
        × (status_of (some (credentials auth_result)) ≡ status true false)
        × (field (codes "bookmarks") (credentials auth_result) ≡ none)
        × (status_code (login request world).0 ≡ 200)
  unfolding oauth_notion_callback send_request after_notion after_auth after_session premium_status
      str_eq set_content_type
  oauth_notion_callback-replaces documents store request world world_1 world_2 body answer key
        auth_result encoded answered decoded found done =
      (
        rw (encoded, answered, decoded, found) (store.set_replaces _ _ _ _ done),
        refl,
        refl,
        rw (encoded, answered, decoded, found) refl,
      )

  after_session-refuses :
      (auth_result : Value) (w : Writer) (r : Reply) (world : W)
      → ((key : Bytes) → r ≢ value key)
      → (after_session env marshal notion decode error_text sessions db auth_result w r world).1
        ≡ world
  unfolding after_session
  after_session-refuses auth_result w (value key) world unknown = absurd (unknown key refl)
  after_session-refuses auth_result w missing world unknown = refl
  after_session-refuses auth_result w failure world unknown = refl

  module _ (documents : W → Bytes → Bytes → Option Document)
      (notion_keeps : (credentials body : Bytes) (world : W)
        → documents (notion credentials body world).1 ≡ documents world)
      (get_keeps : (k : Bytes) (world : W)
        → documents (sessions.get k world).1 ≡ documents world) where
    after_notion-refuses :
        (state : Bytes) (w : Writer) (o : Option Bytes) (world : W)
        → ((key : Bytes) → (sessions.get state world).0 ≢ value key)
        → documents
            (after_notion env marshal notion decode error_text sessions db state w o world).1
          ≡ documents world
    unfolding after_notion after_auth
    after_notion-refuses state w none world unknown = refl
    after_notion-refuses state w (some answer) world unknown = go (decode answer)
      where
        go :
            (a : Bytes ⊎ Value)
            → documents
                (after_auth env marshal notion decode error_text sessions db state w a world).1
              ≡ documents world
        go (inl e) = refl
        go (inr auth_result) =
            ap documents (after_session-refuses auth_result w _ _ unknown) ∙ get_keeps state world

    send_request-refuses :
        (state : Bytes) (w : Writer) (o : Option Bytes) (world : W)
        → ((credentials body key : Bytes)
            → (sessions.get state (notion credentials body world).1).0 ≢ value key)
        → documents
            (send_request env marshal notion decode error_text sessions db state w o world).1
          ≡ documents world
    unfolding send_request
    send_request-refuses state w none world unknown = refl
    send_request-refuses state w (some body) world unknown =
        after_notion-refuses state w _ _ (unknown _ body) ∙ notion_keeps _ body world

    -- A callback whose state is no session's leaves all documents as they were, if Notion and the
    -- reads of the session cache do not change them.
    pub oauth_notion_callback-refuses :
        (request : Request) (world : W)
        → ((credentials body key : Bytes)
            → (sessions.get (request.query (codes "state")) (notion credentials body world).1).0
              ≢ value key)
        → documents (login request world).1 ≡ documents world
    unfolding oauth_notion_callback
    oauth_notion_callback-refuses request world unknown =
        send_request-refuses (request.query (codes "state")) _ _ world unknown
