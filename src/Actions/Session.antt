-- ===== src/Actions/Session.antt =====
-- `OauthNotionCreateAuthSession` and `OauthNotionCallback` of actions/handlers/handlers.go, with
-- `GenerateSessionKey` of actions/utils/utils.go.
pub mod Keys
pub mod Login
pub mod Keyless
pub mod Protocol
use stockic_feed_api.Common.{
  ℕ, suc, zero, ◌*◌, ◌^◌, Bool, true, false, List, [], ◌∷◌, ◌++◌, Option, none, some, length,
  get_elem?, if◌then◌else◌, ◌⊎◌, inl, inr,
}
use stockic_feed_api.Common.State.{State, ◌>>=◌, ◌>>◌, pure}
use stockic_feed_api.Go.Base64.{base64_encode}
use stockic_feed_api.Go.Http.{
  Request, write, write_header, set_content_type, http_error, json, text,
}
use stockic_feed_api.Go.Text.{Bytes, codes, str_eq}
use stockic_feed_api.Stores.Firestore.{Value, Document, Firestore}
use stockic_feed_api.Stores.Redis.{Redis, Reply, value, missing, failure}
use stockic_feed_api.Actions.Base.{Json, Writer, Handler, oauth}
use stockic_feed_api.Actions.Models.{OauthNotionResponse}

-- actions/config/config.go; the expiration is 15 minutes in nanoseconds
abbrev pub notion_session_expiration : ℕ
notion_session_expiration = 15 * 60 * 10 ^ 9

abbrev pub notion_session_charset : Bytes
notion_session_charset = codes "abcdefghijklmnopqrstuvwxyzABCDEFGHIJKLMNOPQRSTUVWXYZ0123456789"

abbrev pub notion_session_key_length : ℕ
notion_session_key_length = 32

-- `generated key`, the error of the random source, or the panic of an index out of range
pub data Generated : Type 0 where
  generated : Bytes → Generated
  error panic : Generated

prepend : ℕ → Generated → Generated
prepend c (generated key) = generated (c ∷ key)
prepend c error = error
prepend c panic = panic

-- `rand.Int(rand.Reader, n)` is `rand_int n`, with `none` for an error. It would panic for n = 0, with
-- which it is never called: the only charset is a constant that is not empty.
module _ {W : Type 0} (rand_int : ℕ → State W (Option ℕ)) where
  draw_char : State W Generated → Option ℕ → State W Generated
  unfolding prepend
  draw_char rest none = pure panic
  draw_char rest (some c) = do key ← rest; pure (prepend c key)

  -- One round of the loop: the character at the drawn index, and then the rest of the key.
  draw : Bytes → State W Generated → Option ℕ → State W Generated
  unfolding draw_char
  draw charset rest none = pure error
  draw charset rest (some i) = draw_char rest (get_elem? charset i)

  unfoldable pub generate_session_key : ℕ → Bytes → State W Generated
  unfolding draw
  generate_session_key zero charset = pure (generated [])
  generate_session_key (suc n) charset = do
    drawn ← rand_int (length charset)
    draw charset (generate_session_key n charset) drawn

abbrev pub auth_response : Bool → Bytes → Json
auth_response success url = oauth (record { success = success; oauth_url = url })

-- `os.Getenv` is `env`.
module _ {W : Type 0} (env : Bytes → Bytes) (rand_int : ℕ → State W (Option ℕ))
    (sessions : Redis W) where
  -- A failed write: the status is already sent.
  after_url : Bool × Writer → Writer
  after_url (true, w) = w
  after_url (false, w) =
      (write (text (codes "No Notion Oauth URL set in backend\n")) (write_header 404 w)).1

  unfoldable pub store_session : Bytes → Bytes → Bytes → Writer → State W Writer
  unfolding after_url
  store_session url session_token api_key w = do
    sessions.set session_token api_key notion_session_expiration
    pure (
        after_url (
          write (json (auth_response true (url ++ codes "&state=" ++ session_token)))
            (write_header 200 w)))

  -- Without a key the code answers 404, and then goes on with an empty token.
  after_key : Bytes → Bytes → Writer → Generated → State W (Option Writer)
  unfolding store_session
  after_key url api_key w panic = pure none
  after_key url api_key w error = do
    answer ←
        store_session (codes "nil") [] api_key
          (write (json (auth_response false (codes "nil"))) (write_header 404 w)).1
    pure (some answer)
  after_key url api_key w (generated session_token) = do
    answer ← store_session url session_token api_key w
    pure (some answer)

  unfoldable pub oauth_notion_create_auth_session : Request → Writer → State W (Option Writer)
  unfolding after_key
  oauth_notion_create_auth_session request w =
      let w_1 = set_content_type (codes "application/json") w in
      let url = env (codes "NOTION_OAUTH_URL") in
      if str_eq url []
      then pure (
          some
            (write (json (auth_response false (codes "URL not found"))) (write_header 404 w_1)).1)
      else (do
        key ← generate_session_key rand_int notion_session_key_length notion_session_charset
        after_key url (request.header (codes "X-API-Key")) w_1 key)

-- The map that is sent to Notion.
pub record TokenRequest : Type 0 where
  pub grant_type : Bytes
  pub code : Bytes
  pub redirect_uri : Bytes

-- `marshal` encodes the request to Notion; `notion` sends it under an Authorization header and returns
-- the body of the answer, with `none` for an error; `decode` reads a JSON object or fails with the
-- text of the error; `error_text` is `Error()` of a failed read. `http.NewRequest` does not fail on
-- the constant method and address.
module _ {W : Type 0} (env : Bytes → Bytes) (marshal : TokenRequest → Option Bytes)
    (notion : Bytes → Bytes → State W (Option Bytes)) (decode : Bytes → Bytes ⊎ Value)
    (error_text : Reply → Bytes) (sessions : Redis W) (db : Firestore W) where
  after_session : Value → Writer → Reply → State W Writer
  after_session auth_result w (value api_key) = do
    db.set_doc (codes "users") api_key ((codes "NotionCredentials", auth_result) ∷ [])
    pure w
  after_session auth_result w reply =
      pure (http_error (codes "Session expired or invalid: " ++ error_text reply) 401 w)

  after_auth : Bytes → Writer → Bytes ⊎ Value → State W Writer
  unfolding after_session
  after_auth state w (inl e) = pure (http_error (codes "Error Decoding Notion Response" ++ e) 401 w)
  after_auth state w (inr auth_result) = do
    reply ← sessions.get state
    after_session auth_result w reply

  after_notion : Bytes → Writer → Option Bytes → State W Writer
  unfolding after_auth
  after_notion state w none = pure (http_error (codes "Error making request to Notion") 500 w)
  after_notion state w (some answer) = after_auth state w (decode answer)

  -- the value of the Authorization header
  unfoldable pub basic_credentials : Bytes
  basic_credentials =
      codes "Basic "
      ++ base64_encode
          (env (codes "NOTION_CLIENT_ID") ++ codes ":" ++ env (codes "NOTION_CLIENT_SECRET"))

  unfoldable pub token_request : Bytes → TokenRequest
  token_request code = record {
    grant_type = codes "authorization_code";
    code = code;
    redirect_uri = env (codes "NOTION_REDIRECT_URI");
  }

  send_request : Bytes → Writer → Option Bytes → State W Writer
  unfolding after_notion
  send_request state w none = pure w
  send_request state w (some json_data) = do
    answer ← notion basic_credentials json_data
    after_notion state w answer

  unfoldable pub oauth_notion_callback : Handler W
  unfolding send_request
  oauth_notion_callback request w =
      send_request (request.query (codes "state")) (set_content_type (codes "application/json") w)
        (marshal (token_request (request.query (codes "code"))))
