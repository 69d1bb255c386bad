-- ===== src/Startup/Firebase.antt =====
-- `InitializeFirebase` of the files database/database.go of feed-api and actions, which have the same
-- text.
use stockic_feed_api.Common.{◌≡◌, refl, Bool, true, false, Option, none, some, if◌then◌else◌}
use stockic_feed_api.Common.State.{State, ◌>>=◌, pure}
use stockic_feed_api.Go.Text.{Bytes}

-- A `sync.Once` in a world: whether its call was made, and the call's mark.
pub record Once (W : Type 0) : Type 0 where
  pub done : W → Bool
  pub mark : W → W

-- `new_app` is `firebase.NewApp` with a credentials file, `firestore` is `app.Firestore`; both return none
-- for an error. The result is none where the process ends, and `some none` is the nil client.
module _ {W App Client : Type 0} (once : Once W) (new_app : Bytes → State W (Option App))
    (firestore : App → State W (Option Client)) where
  after_client : Option Client → State W (Option (Option Client))
  after_client none w = (none, w)
  after_client (some client) w = (some (some client), once.mark w)

  after_app : Option App → State W (Option (Option Client))
  unfolding after_client
  after_app none = pure none
  after_app (some app) = do client ← firestore app; after_client client

  unfoldable pub initialize_firebase : Bytes → State W (Option (Option Client))
  unfolding after_app
  initialize_firebase credentials_path w =
      if once.done w then (some none, w) else (do app ← new_app credentials_path; after_app app) w

  after_client-connects :
      (c : Option Client) (w : W) (o : Option Client)
      → (after_client c w).0 ≡ some o
      → (client : Client) × (o ≡ some client)
  unfolding after_client
  after_client-connects none w o e = cc
  after_client-connects (some client) w o e = (client, cc)

  after_app-connects :
      (app : Option App) (w : W) (o : Option Client)
      → (after_app app w).0 ≡ some o
      → (client : Client) × (o ≡ some client)
  unfolding after_app
  after_app-connects none w o e = cc
  after_app-connects (some app) w o e = after_client-connects _ _ o e

  -- A first call that returns has a client.
  pub initialize_firebase-connects :
      (credentials_path : Bytes) (w : W) (o : Option Client)
      → once.done w ≡ false
      → (initialize_firebase credentials_path w).0 ≡ some o
      → (client : Client) × (o ≡ some client)
  unfolding initialize_firebase
  initialize_firebase-connects credentials_path w o first e =
      after_app-connects _ _ o (rw first at e)

  -- A later call returns the nil client.
  pub initialize_firebase_again :
      (credentials_path : Bytes) (w : W)
      → once.done w ≡ true
      → initialize_firebase credentials_path w ≡ (some none, w)
  unfolding initialize_firebase
  initialize_firebase_again credentials_path w later = rw later refl
