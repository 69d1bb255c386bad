-- ===== src/Actions/Bookmarks/Statuses.antt =====
-- What requests about bookmarks leave of the statuses of users, in Firestore and in the cache.
use stockic_feed_api.Common.{
  ◌≡◌, ◌⊎◌, inl, inr, refl, sym, ap, ◌∙◌, true, [], Option, some, Bool-cases, Option-cases,
}
use stockic_feed_api.Go.Http.{Request}
use stockic_feed_api.Go.Text.{Bytes, codes, str_eq}
use stockic_feed_api.Stores.Codec.{Codec}
use stockic_feed_api.Stores.Firestore.{Document, Firestore}
use stockic_feed_api.Stores.Firestore.Documents.{union_field, remove_field, field-put_field_other}
use stockic_feed_api.Stores.Redis.{Redis}
use stockic_feed_api.FeedApi.Models.{UserStatus}
use stockic_feed_api.FeedApi.UserStatus.{premium_status, status}
use stockic_feed_api.FeedApi.UserStatus.Backends.{Backends, status_of, premium_of}
use stockic_feed_api.FeedApi.UserStatus.Coherence.{Coherent, Keeps, get_doc-Keeps}
use stockic_feed_api.Actions.Base.{Writer}
use stockic_feed_api.Actions.Bookmarks.{
  add_bookmarks_handlers, add_news, after_update, remove_bookmarks, remove_news, list_bookmarks,
}
use stockic_feed_api.Actions.Models.{BookmarkRequest}

-- What the code relies on in `Update` of a user's document: it is atomic, so that afterwards, also
-- where it reports an error, either all documents are as before or this one has its field changed;
-- and Firestore leaves the cache alone.
pub record Updates {W : Type 0} {cache : Redis W} {db : Firestore W} (backends : Backends cache db)
    : Type 0 where
  pub union_entries :
      (id f s : Bytes) (w : W)
      → backends.entries (db.array_union (codes "users") id f s w).1 ≡ backends.entries w
  pub remove_entries :
      (id f s : Bytes) (w : W)
      → backends.entries (db.array_remove (codes "users") id f s w).1 ≡ backends.entries w
  pub union_users :
      (id f s : Bytes) (w : W) (key : Bytes)
      → (backends.users (db.array_union (codes "users") id f s w).1 key ≡ backends.users w key)
        ⊎ ((d : Document) × (backends.users w key ≡ some d)
            × (backends.users (db.array_union (codes "users") id f s w).1 key
                ≡ some (union_field f s d)))
  pub remove_users :
      (id f s : Bytes) (w : W) (key : Bytes)
      → (backends.users (db.array_remove (codes "users") id f s w).1 key ≡ backends.users w key)
        ⊎ ((d : Document) × (backends.users w key ≡ some d)
            × (backends.users (db.array_remove (codes "users") id f s w).1 key
                ≡ some (remove_field f s d)))

union_field-premium_status :
    (s : Bytes) (d : Document)
    → premium_status (union_field (codes "bookmarks") s d) ≡ premium_status d
unfolding premium_status str_eq
union_field-premium_status s d =
    rw (field-put_field_other (codes "bookmarks") (codes "premium-status") _ d refl) refl

remove_field-premium_status :
    (s : Bytes) (d : Document)
    → premium_status (remove_field (codes "bookmarks") s d) ≡ premium_status d
unfolding premium_status str_eq
remove_field-premium_status s d =
    rw (field-put_field_other (codes "bookmarks") (codes "premium-status") _ d refl) refl

-- A document that is as before, or changed by `f`, stands for the same status.
status_of_changed :
    (f : Document → Document)
    → ((d : Document) → premium_status (f d) ≡ premium_status d)
    → (before after : Option Document)
    → (after ≡ before) ⊎ ((d : Document) × (before ≡ some d) × (after ≡ some (f d)))
    → status_of after ≡ status_of before
status_of_changed f keeps before after (inl same) = ap status_of same
status_of_changed f keeps before after (inr (d, was, is)) =
    rw (was, is) (ap (λ p. status true (premium_of p)) (keeps d))

module _ {W : Type 0} (cache : Redis W) (db : Firestore W) (json : Codec UserStatus)
    (decode : Bytes → Option BookmarkRequest) (backends : Backends cache db)
    (updates : Updates backends) where
  open backends use {entries, users}

  -- The cache is coherent in `t`, and all users have the status that they have in `s`.
  abbrev pub KeepsStatus : W → W → Type 0
  KeepsStatus s t =
      Coherent cache db json backends t
      × ((key : Bytes) → status_of (users t key) ≡ status_of (users s key))

  changed-KeepsStatus :
      (s t : W)
      → Coherent cache db json backends s
      → entries t ≡ entries s
      → ((key : Bytes) → status_of (users t key) ≡ status_of (users s key))
      → KeepsStatus s t
  changed-KeepsStatus s t coherent same_cache same = (
    λ key x st cached read. coherent key x st (rw same_cache at cached) read ∙ sym (same key),
    same,
  )

  pub Keeps-KeepsStatus : (s t : W) → Keeps cache db json backends s t → KeepsStatus s t
  Keeps-KeepsStatus s t (coherent, same) = (coherent, λ key. ap (λ m. status_of (m key)) same)

  unchanged-KeepsStatus : (s : W) → Coherent cache db json backends s → KeepsStatus s s
  unchanged-KeepsStatus s coherent = (coherent, λ key. refl)

  add_news-KeepsStatus :
      (user_id : Bytes) (w : Writer) (req : BookmarkRequest) (s : W)
      → Coherent cache db json backends s
      → (db.array_union (codes "users") user_id (codes "bookmarks") req.news_id s).0 ≡ true
      → KeepsStatus s (add_news db decode user_id w (some req) s).1
  unfolding add_news after_update
  add_news-KeepsStatus user_id w req s coherent done =
      rw (done, after_update)
        (changed-KeepsStatus s _ coherent
          (updates.union_entries user_id (codes "bookmarks") req.news_id s)
          (λ key.
            status_of_changed (union_field (codes "bookmarks") req.news_id)
              (union_field-premium_status req.news_id) _ _
              (updates.union_users user_id (codes "bookmarks") req.news_id s key)))

  remove_news-KeepsStatus :
      (user_id : Bytes) (w : Writer) (req : BookmarkRequest) (s : W)
      → Coherent cache db json backends s
      → KeepsStatus s (remove_news db decode user_id w (some req) s).1
  unfolding remove_news
  remove_news-KeepsStatus user_id w req s coherent =
      changed-KeepsStatus s _ coherent
        (updates.remove_entries user_id (codes "bookmarks") req.news_id s)
        (λ key.
          status_of_changed (remove_field (codes "bookmarks") req.news_id)
            (remove_field-premium_status req.news_id) _ _
            (updates.remove_users user_id (codes "bookmarks") req.news_id s key))

  pub add_bookmarks_handlers-KeepsStatus :
      (request : Request) (w : Writer) (s : W)
      → Coherent cache db json backends s
      → ((req : BookmarkRequest)
          → decode request.body ≡ some req
          → (db.array_union
              (codes "users")
              (request.header (codes "X-API-Key"))
              (codes "bookmarks")
              req.news_id
              s).0
            ≡ true)
      → KeepsStatus s (add_bookmarks_handlers db decode request w s).1
  unfolding add_bookmarks_handlers add_news
  add_bookmarks_handlers-KeepsStatus request w s coherent done =
      elim (Bool-cases (str_eq request.method (codes "POST"))) [
        | inl good ↦ elim (Bool-cases (str_eq (request.header (codes "X-API-Key")) [])) [
          | inl no_key ↦ rw (good, no_key) (unchanged-KeepsStatus s coherent)
          | inr known ↦ elim (Option-cases (decode request.body)) [
            | inl bad ↦ rw (good, known, bad) (unchanged-KeepsStatus s coherent)
            | inr (req, decoded) ↦
                rw (good, known, decoded)
                  (add_news-KeepsStatus _ w req s coherent (done req decoded))
          ]
        ]
        | inr wrong ↦ rw wrong (unchanged-KeepsStatus s coherent)
      ]

  pub remove_bookmarks-KeepsStatus :
      (request : Request) (w : Writer) (s : W)
      → Coherent cache db json backends s
      → KeepsStatus s (remove_bookmarks db decode request w s).1
  unfolding remove_bookmarks remove_news
  remove_bookmarks-KeepsStatus request w s coherent =
      elim (Bool-cases (str_eq request.method (codes "DELETE"))) [
        | inl good ↦ elim (Bool-cases (str_eq (request.header (codes "X-API-Key")) [])) [
          | inl no_key ↦ rw (good, no_key) (unchanged-KeepsStatus s coherent)
          | inr known ↦ elim (Option-cases (decode request.body)) [
            | inl bad ↦ rw (good, known, bad) (unchanged-KeepsStatus s coherent)
            | inr (req, decoded) ↦
                rw (good, known, decoded) (remove_news-KeepsStatus _ w req s coherent)
          ]
        ]
        | inr wrong ↦ rw wrong (unchanged-KeepsStatus s coherent)
      ]

  pub list_bookmarks-KeepsStatus :
      (request : Request) (w : Writer) (s : W)
      → Coherent cache db json backends s
      → KeepsStatus s (list_bookmarks db request w s).1
  unfolding list_bookmarks
  list_bookmarks-KeepsStatus request w s coherent =
      elim (Bool-cases (str_eq request.method (codes "GET"))) [
        | inl good ↦ elim (Bool-cases (str_eq (request.header (codes "X-API-Key")) [])) [
          | inl no_key ↦ rw (good, no_key) (unchanged-KeepsStatus s coherent)
          | inr known ↦
              rw (good, known)
                (Keeps-KeepsStatus s _ (get_doc-Keeps cache db json backends _ _ s coherent))
        ]
        | inr wrong ↦ rw wrong (unchanged-KeepsStatus s coherent)
      ]
