-- ===== src/Actions/Bookmarks/Guards.antt =====
-- Which requests reach Firestore, and what is left of a document that `Update` failed on.
use stockic_feed_api.Common.{
  ◌≡◌, ◌⊎◌, inl, inr, refl, Bool, true, false, [], ◌∷◌, Option, some, Bool-cases, Option-cases,
}
use stockic_feed_api.Common.State.{State}
use stockic_feed_api.Go.Http.{Request}
use stockic_feed_api.Go.Text.{Bytes, codes, str_eq}
use stockic_feed_api.Stores.Firestore.{nil, cons, text, array, Document, Firestore}
use stockic_feed_api.Stores.Firestore.Documents.{IsDocumentStore}
use stockic_feed_api.FeedApi.UserStatus.{premium_status, status}
use stockic_feed_api.FeedApi.UserStatus.Backends.{status_of}
use stockic_feed_api.Actions.Base.{Writer, deliver_message}
use stockic_feed_api.Actions.Bookmarks.{
  after_set, after_update, add_news, add_bookmarks_handlers, remove_news, remove_bookmarks,
}
use stockic_feed_api.Actions.Models.{BookmarkRequest}

module _ {W : Type 0} (db : Firestore W) (decode : Bytes → Option BookmarkRequest) where
  -- A request with this method, a key and a body that decodes.
  abbrev pub WellFormed : Bytes → Request → Type 0
  WellFormed method request =
      (str_eq request.method method ≡ true)
      × (str_eq (request.header (codes "X-API-Key")) [] ≡ false)
      × ((req : BookmarkRequest) × (decode request.body ≡ some req))

  -- `run` changes the world at most for a well-formed request of this method.
  abbrev pub Guarded : Bytes → (Request → Writer → State W Writer) → Request → Writer → W → Type 0
  Guarded method run request w world = ((run request w world).1 ≡ world) ⊎ WellFormed method request

  add_bookmarks_handlers-Guarded :
      (request : Request) (w : Writer) (world : W)
      → Guarded (codes "POST") (add_bookmarks_handlers db decode) request w world
  unfolding add_bookmarks_handlers add_news
  add_bookmarks_handlers-Guarded request w world =
      elim (Bool-cases (str_eq request.method (codes "POST"))) [
        | inl good ↦ elim (Bool-cases (str_eq (request.header (codes "X-API-Key")) [])) [
          | inl no_key ↦ inl (rw (good, no_key) refl)
          | inr known ↦ elim (Option-cases (decode request.body)) [
            | inl bad ↦ inl (rw (good, known, bad) refl)
            | inr (req, decoded) ↦ inr (good, known, (req, decoded))
          ]
        ]
        | inr wrong ↦ inl (rw wrong refl)
      ]

  remove_bookmarks-Guarded :
      (request : Request) (w : Writer) (world : W)
      → Guarded (codes "DELETE") (remove_bookmarks db decode) request w world
  unfolding remove_bookmarks remove_news
  remove_bookmarks-Guarded request w world =
      elim (Bool-cases (str_eq request.method (codes "DELETE"))) [
        | inl good ↦ elim (Bool-cases (str_eq (request.header (codes "X-API-Key")) [])) [
          | inl no_key ↦ inl (rw (good, no_key) refl)
          | inr known ↦ elim (Option-cases (decode request.body)) [
            | inl bad ↦ inl (rw (good, known, bad) refl)
            | inr (req, decoded) ↦ inr (good, known, (req, decoded))
          ]
        ]
        | inr wrong ↦ inl (rw wrong refl)
      ]

  -- Adding reaches Firestore only for a POST, removing only for a DELETE, and both only with a key and
  -- a body that decodes; any other request leaves the world as it was.
  pub bookmarks-Guarded :
      (request : Request) (w : Writer) (world : W)
      → Guarded (codes "POST") (add_bookmarks_handlers db decode) request w world
        × Guarded (codes "DELETE") (remove_bookmarks db decode) request w world
  bookmarks-Guarded request w world =
      (add_bookmarks_handlers-Guarded request w world, remove_bookmarks-Guarded request w world)

  -- A user's document with one bookmark and nothing else.
  abbrev pub only : Bytes → Document
  only news_id = (codes "bookmarks", array (cons (text news_id) nil)) ∷ []

  abbrev pub updated : Bytes → Bytes → State W Bool
  updated key news_id = db.array_union (codes "users") key (codes "bookmarks") news_id

  abbrev pub replaced : Bytes → Bytes → State W Bool
  replaced key news_id world =
      db.set_doc (codes "users") key (only news_id) (updated key news_id world).1

  -- Where `Update` fails and `Set` does not, an addition is answered with 200 and leaves a document
  -- with this one bookmark and nothing else: the user is no longer premium.
  pub add_bookmarks_handlers-replaces :
      (documents : W → Bytes → Bytes → Option Document) (store : IsDocumentStore db documents)
      (request : Request) (req : BookmarkRequest) (w : Writer) (world : W) (key : Bytes)
      → str_eq request.method (codes "POST") ≡ true
      → request.header (codes "X-API-Key") ≡ key
      → str_eq key [] ≡ false
      → decode request.body ≡ some req
      → (updated key req.news_id world).0 ≡ false
      → (replaced key req.news_id world).0 ≡ true
      → ((add_bookmarks_handlers db decode request w world).0
          ≡ deliver_message (codes "Bookmark added successfully") w)
        × (documents (add_bookmarks_handlers db decode request w world).1 (codes "users") key
            ≡ some (only req.news_id))
        × (status_of (some (only req.news_id)) ≡ status true false)
  unfolding add_bookmarks_handlers add_news after_update after_set premium_status str_eq
  add_bookmarks_handlers-replaces documents store request req w world key post header known decoded
        failed done =
      let stored = store.set_replaces _ _ _ _ done in
      (
        rw (post, header, known, decoded, failed, done) refl,
        rw (post, header, known, decoded, failed) stored,
        refl,
      )
