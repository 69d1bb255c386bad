-- ===== src/Actions/Session/Protocol.antt =====
-- Logins to Notion of any number of users, in any order: requests that begin one, callbacks, and
-- sessions that expire.
pub mod Effects
pub mod Granted
use mathlib.Core.List.{Memᴰ}
use stockic_feed_api.Common.{ℕ, ◌≡◌, ◌⊎◌, false, List, [], ◌∷◌, ◌++◌, Option, some, if◌then◌else◌}
use stockic_feed_api.Common.State.{State}
use stockic_feed_api.Go.Http.{Request}
use stockic_feed_api.Go.Text.{Bytes, codes, str_eq}
use stockic_feed_api.Stores.Firestore.{Value, Document, Firestore}
use stockic_feed_api.Stores.Redis.{Redis, Reply, IsCache}
use stockic_feed_api.Actions.Base.{Writer}
use stockic_feed_api.Actions.Session.{
  Generated, generated, error, panic, generate_session_key, notion_session_charset,
  notion_session_key_length, oauth_notion_create_auth_session, TokenRequest, oauth_notion_callback,
}

-- A world with the sessions that were begun in it: the key of each with its user's API key.
pub record Trace (W : Type 0) : Type 0 where
  pub world : W
  pub granted : List (Bytes × Bytes)

-- The stores as the code calls them, with their contents.
pub record Services (W : Type 0) : Type 0 where
  pub env : Bytes → Bytes
  pub rand_int : ℕ → State W (Option ℕ)
  pub marshal : TokenRequest → Option Bytes
  pub notion : Bytes → Bytes → State W (Option Bytes)
  pub decode : Bytes → Bytes ⊎ Value
  pub error_text : Reply → Bytes
  pub sessions : Redis W
  pub db : Firestore W
  pub entries : W → Bytes → Option Bytes
  pub users : W → Bytes → Option Document

-- What the code relies on in them: the session cache, the random source and Notion leave the users'
-- documents alone, the others leave the sessions alone, and `Set` changes one document only.
pub record Separate {W : Type 0} (services : Services W) : Type 0 where
  pub cache : IsCache services.sessions services.entries
  pub rand_entries :
      (n : ℕ) (w : W) → services.entries (services.rand_int n w).1 ≡ services.entries w
  pub rand_users : (n : ℕ) (w : W) → services.users (services.rand_int n w).1 ≡ services.users w
  pub notion_entries :
      (c b : Bytes) (w : W) → services.entries (services.notion c b w).1 ≡ services.entries w
  pub notion_users :
      (c b : Bytes) (w : W) → services.users (services.notion c b w).1 ≡ services.users w
  pub get_users :
      (k : Bytes) (w : W) → services.users (services.sessions.get k w).1 ≡ services.users w
  pub set_users :
      (k v : Bytes) (ttl : ℕ) (w : W)
      → services.users (services.sessions.set k v ttl w).1 ≡ services.users w
  pub doc_entries :
      (id : Bytes) (d : Document) (w : W)
      → services.entries (services.db.set_doc (codes "users") id d w).1 ≡ services.entries w
  pub doc_others :
      (id : Bytes) (d : Document) (w : W) (user : Bytes)
      → str_eq id user ≡ false
      → services.users (services.db.set_doc (codes "users") id d w).1 user ≡ services.users w user

module _ {W : Type 0} (services : Services W) where
  open services use {
    env, rand_int, marshal, notion, decode, error_text, sessions, db, entries, users,
  }

  -- The session that a request begins, if its key was made, or the session of the empty key.
  abbrev pub session_of : Bytes → Generated → List (Bytes × Bytes)
  session_of api_key (generated token) = (token, api_key) ∷ []
  session_of api_key error = ([], api_key) ∷ []
  session_of api_key panic = []

  abbrev pub begin : Request → Writer → State W (Option Writer)
  begin = oauth_notion_create_auth_session env rand_int sessions

  abbrev pub call_back : Request → Writer → State W Writer
  call_back = oauth_notion_callback env marshal notion decode error_text sessions db

  abbrev pub begun : Request → W → List (Bytes × Bytes)
  begun request w =
      if str_eq (env (codes "NOTION_OAUTH_URL")) []
      then []
      else session_of (request.header (codes "X-API-Key"))
          (generate_session_key rand_int notion_session_key_length notion_session_charset w).0

  pub data Step (s : Trace W) (t : Trace W) : Type 0 where
    begins :
        (request : Request) (w : Writer)
        → t ≡ record {
          world = (begin request w s.world).1;
          granted = begun request s.world ++ s.granted;
        }
        → Step s t
    calls_back :
        (request : Request) (w : Writer)
        → t ≡ record s { world = (call_back request w s.world).1 }
        → Step s t
    expires :
        (w : W)
        → ((k x : Bytes) → entries w k ≡ some x → entries s.world k ≡ some x)
        → users w ≡ users s.world
        → t ≡ record s { world = w }
        → Step s t

  pub data Reach (s : Trace W) : Trace W → Type 0 where
    here : Reach s s
    next : {t u : Trace W} → Reach s t → Step t u → Reach s u

  -- Every session that there is was begun.
  abbrev pub IsGranted : Trace W → Type 0
  IsGranted s = (k x : Bytes) → entries s.world k ≡ some x → Memᴰ (k, x) s.granted
