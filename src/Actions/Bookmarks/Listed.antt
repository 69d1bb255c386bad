-- ===== src/Actions/Bookmarks/Listed.antt =====
-- Added bookmarks are listed, removed ones are not.
use stockic_feed_api.Common.{
  ℕ, ◌≡◌, arith, refl, sym, ap, ◌∙◌, Bool, true, false, List, [], ◌∷◌, Option, some,
}
use stockic_feed_api.Go.Http.{Request, fresh, status_code, status_code-http_error}
use stockic_feed_api.Go.Text.{Bytes, codes, str_eq}
use stockic_feed_api.Stores.Firestore.{
  Values, nil, cons, text, array, bool, other, Document, field, snapshot, Firestore,
}
use stockic_feed_api.Stores.Firestore.Documents.{
  texts, contains, IsDocumentStore, remove_field, field-put_field, texts-remove_text,
  contains-delete,
}
use stockic_feed_api.Actions.Base.{Json, Writer, send_response}
use stockic_feed_api.Actions.Bookmarks.{
  string_elements, retrieved, list_data, list_document, bookmarks_data, after_remove, remove_news,
  remove_bookmarks, list_bookmarks,
}
use stockic_feed_api.Actions.Models.{BookmarkRequest}

string_elements_lem : (vs : Values) → string_elements vs ≡ texts vs
unfolding string_elements
string_elements_lem nil = refl
string_elements_lem (cons (text t) vs) = ap (λ r. t ∷ r) (string_elements_lem vs)
string_elements_lem (cons (bool b) vs) = string_elements_lem vs
string_elements_lem (cons (array a) vs) = string_elements_lem vs
string_elements_lem (cons other vs) = string_elements_lem vs

-- The bookmarks of a document, where `answer` says whether `news_id` is among them.
abbrev pub Bookmarked : Bytes → Bool → Document → Type 0
Bookmarked news_id answer d =
    (vs : Values) × (field (codes "bookmarks") d ≡ some (array vs))
    × (contains news_id (texts vs) ≡ answer)

remove_field-Bookmarked :
    (s : Bytes) (d : Document) → Bookmarked s false (remove_field (codes "bookmarks") s d)
remove_field-Bookmarked s d =
    (_, field-put_field (codes "bookmarks") _ d, rw texts-remove_text (contains-delete s _))

module _ {W : Type 0} (db : Firestore W) (decode : Bytes → Option BookmarkRequest)
    (documents : W → Bytes → Bytes → Option Document) (store : IsDocumentStore db documents) where
  abbrev pub Stored : Bytes → Bytes → Bool → W → Type 0
  Stored user_id news_id answer world =
      (d : Document) × (documents world (codes "users") user_id ≡ some d)
      × Bookmarked news_id answer d

  after_remove-sent : (b : Bool) → status_code (after_remove db decode fresh b) ≡ 200 → b ≡ true
  unfolding after_remove
  after_remove-sent true sent = refl
  after_remove-sent false sent =
      let wrong : Path ℕ 500 200 =
        sym (status_code-http_error Json (codes "Failed to delete bookmark") 500) ∙ sent in
      absurd (omega arith)

  remove_news-Stored :
      (user_id : Bytes) (req : BookmarkRequest) (world : W)
      → status_code (remove_news db decode user_id fresh (some req) world).0 ≡ 200
      → Stored user_id req.news_id false (remove_news db decode user_id fresh (some req) world).1
  unfolding remove_news
  remove_news-Stored user_id req world sent =
      let (d, before, after) = store.remove_updates _ _ _ _ world (after_remove-sent _ sent) in
      (_, after, remove_field-Bookmarked req.news_id d)

  list_document-lists :
      (d : Document) (vs : Values) (w : Writer)
      → field (codes "bookmarks") d ≡ some (array vs)
      → list_document (snapshot true d) w ≡ send_response (retrieved (texts vs)) 200 w
  unfolding list_document list_data bookmarks_data
  list_document-lists d vs w h = rw (h, string_elements_lem) refl

  -- The list that a user asks for, from a world in which the bookmarks of the user are known.
  module _ (list_request : Request) (is_get : str_eq list_request.method (codes "GET") ≡ true)
      (known : str_eq (list_request.header (codes "X-API-Key")) [] ≡ false) where
    list_bookmarks-lists :
        (news_id : Bytes) (answer : Bool) (world : W) (d : Document)
        → Stored (list_request.header (codes "X-API-Key")) news_id answer world
        → (db.get_doc (codes "users") (list_request.header (codes "X-API-Key")) world).0
          ≡ snapshot true d
        → (ids : List Bytes) × ((list_bookmarks db list_request fresh world).0
            ≡ send_response (retrieved ids) 200 fresh)
          × (contains news_id ids ≡ answer)
    unfolding list_bookmarks
    list_bookmarks-lists news_id answer world d (d', stored, bookmarked) reply =
        let same : d ≡ d' = cc (store.get_reads _ _ world d reply) in
        let (vs, array_field, found) = bookmarked in
        (
          texts vs,
          rw (is_get, known, reply) (list_document-lists d vs fresh (rw same array_field)),
          found,
        )

    -- Once a request to remove a bookmark has been answered with 200, the user's list lacks it, as long
    -- as the user's document can be read.
    pub remove_bookmarks-unlisted :
        (request : Request) (req : BookmarkRequest) (world : W) (d : Document)
        → str_eq request.method (codes "DELETE") ≡ true
        → request.header (codes "X-API-Key") ≡ list_request.header (codes "X-API-Key")
        → decode request.body ≡ some req
        → status_code (remove_bookmarks db decode request fresh world).0 ≡ 200
        → (db.get_doc
            (codes "users")
            (list_request.header (codes "X-API-Key"))
            (remove_bookmarks db decode request fresh world).1).0
          ≡ snapshot true d
        → (ids : List Bytes) × ((list_bookmarks db list_request fresh
              (remove_bookmarks db decode request fresh world).1).0
            ≡ send_response (retrieved ids) 200 fresh)
          × (contains req.news_id ids ≡ false)
    unfolding remove_bookmarks
    remove_bookmarks-unlisted request req world d is_delete same decoded sent reply =
        list_bookmarks-lists req.news_id false _ d
          (rw (is_delete, same, known, decoded)
            (remove_news-Stored _ req world (rw (is_delete, same, known, decoded) at sent)))
          reply
