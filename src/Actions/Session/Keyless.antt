-- ===== src/Actions/Session/Keyless.antt =====
-- A login that begins while the random source fails, and a callback after it.
use mathlib.Core.Option.{some-injective}
use stockic_feed_api.Common.{ℕ, ◌≡◌, ◌⊎◌, inr, sym, ap, ◌∙◌, true, false, [], Option, some}
use stockic_feed_api.Common.State.{State}
use stockic_feed_api.Go.Http.{Request, fresh, status_code}
use stockic_feed_api.Go.Text.{Bytes, codes, str_eq}
use stockic_feed_api.Stores.Firestore.{Value, Document, Firestore}
use stockic_feed_api.Stores.Firestore.Documents.{IsDocumentStore}
use stockic_feed_api.Stores.Redis.{Redis, Reply, value, IsCache}
use stockic_feed_api.Actions.Base.{Writer}
use stockic_feed_api.Actions.Session.{
  error, notion_session_expiration, oauth_notion_create_auth_session, TokenRequest,
  basic_credentials, token_request,
}
use stockic_feed_api.Actions.Session.Login.{
  new_key, login, credentials, oauth_notion_create_auth_session-no_key,
  oauth_notion_callback-replaces,
}

module _ {W : Type 0} (env : Bytes → Bytes) (rand_int : ℕ → State W (Option ℕ))
    (marshal : TokenRequest → Option Bytes) (notion : Bytes → Bytes → State W (Option Bytes))
    (decode : Bytes → Bytes ⊎ Value) (error_text : Reply → Bytes) (sessions : Redis W)
    (db : Firestore W) (entries : W → Bytes → Option Bytes) (cache : IsCache sessions entries)
    (set_stores : (k v : Bytes) (ttl : ℕ) (w : W)
      → (sessions.set k v ttl w).0 ≡ true
      → entries (sessions.set k v ttl w).1 k ≡ some v)
    (notion_keeps : (c b : Bytes) (w : W) → entries (notion c b w).1 ≡ entries w)
    (documents : W → Bytes → Bytes → Option Document) (store : IsDocumentStore db documents) where
  -- If no session key can be made when a user begins a login, and the session cache stores what the
  -- handler then sets, the answer has the status 404, and a callback without a state that comes next,
  -- whoever sends it, is taken for this user: if Notion answers it, the session cache is read and
  -- Firestore stores, the credentials of Notion are left in the user's document.
  pub oauth_notion_create_auth_session-adopts :
      (request callback : Request) (world world' world_1 world_2 : W) (answer : Writer)
      (body text x : Bytes) (auth_result : Value)
      → str_eq (env (codes "NOTION_OAUTH_URL")) [] ≡ false
      → (new_key env rand_int sessions world).0 ≡ error
      → (sessions.set []
          (request.header (codes "X-API-Key"))
          notion_session_expiration
          (new_key env rand_int sessions world).1).0
        ≡ true
      → oauth_notion_create_auth_session env rand_int sessions request fresh world
        ≡ (some answer, world')
      → callback.query (codes "state") ≡ []
      → marshal (
          token_request env marshal notion decode error_text sessions db
            (callback.query (codes "code")))
        ≡ some body
      → notion (basic_credentials env marshal notion decode error_text sessions db) body world'
        ≡ (some text, world_1)
      → decode text ≡ inr auth_result
      → sessions.get [] world_1 ≡ (value x, world_2)
      → (db.set_doc
          (codes "users")
          x
          (credentials env marshal notion decode error_text sessions db auth_result)
          world_2).0
        ≡ true
      → (status_code answer ≡ 404)
        × (documents
              (login env marshal notion decode error_text sessions db callback world').1
              (codes "users")
              (request.header (codes "X-API-Key"))
            ≡ some (credentials env marshal notion decode error_text sessions db auth_result))
  oauth_notion_create_auth_session-adopts request callback world world' world_1 world_2 answer body
        text x auth_result url failed stored began no_state encoded answered decoded found done =
      let (answer', ran, refused, _) =
        oauth_notion_create_auth_session-no_key env rand_int sessions request world url failed in
      let both = sym ran ∙ began in
      let same_world = ap (λ r. r.1) both in
      let same_answer = some-injective _ _ (ap (λ r. r.0) both) in
      let kept : entries world_1 ≡ entries world' =
        ap (λ r. entries r.1) (sym answered)
        ∙ notion_keeps (basic_credentials env marshal notion decode error_text sessions db) body
            world' in
      let own : x ≡ request.header (codes "X-API-Key") = some-injective _ _ (
        sym (cache.get_reads [] world_1 x (ap (λ r. r.0) found))
        ∙ ap (λ f. f []) (kept ∙ ap entries (sym same_world))
        ∙ set_stores [] (request.header (codes "X-API-Key")) notion_session_expiration
            (new_key env rand_int sessions world).1 stored) in
      let (replaced, _, _, _) =
        oauth_notion_callback-replaces env marshal notion decode error_text sessions db documents
          store callback world' world_1 world_2 body text x auth_result encoded answered decoded
          (ap (λ k. sessions.get k world_1) no_state ∙ found) done in
      (
        ap status_code (sym same_answer) ∙ refused,
        ap (documents _ (codes "users")) (sym own) ∙ replaced,
      )
