-- ===== src/Actions/Bookmarks.antt =====
-- `AddBookmarksHandlers`, `RemoveBookmarks` and `ListBookmarks` of actions/handlers/handlers.go.
-- `decode` is the decoding of a request's body, with `none` for an error.
pub mod Listed
pub mod Guards
pub mod Statuses
use stockic_feed_api.Common.{Bool, true, false, List, [], ◌∷◌, Option, none, some, if◌then◌else◌}
use stockic_feed_api.Common.State.{State, ◌>>=◌, pure}
use stockic_feed_api.Go.Http.{Request, http_error}
use stockic_feed_api.Go.Text.{Bytes, codes, str_eq}
use stockic_feed_api.Stores.Firestore.{
  Value, Values, nil, cons, text, array, bool, other, Document, field, Fetched, not_found, failed,
  snapshot, Firestore,
}
use stockic_feed_api.Actions.Base.{Writer, Handler, deliver_message, send_response}
use stockic_feed_api.Actions.Models.{BookmarkRequest, BookmarkResponse}

-- `doc.DataAt("bookmarks")`: an error where the document or the field is missing
bookmarks_data : Bool → Document → Option Value
bookmarks_data false d = none
bookmarks_data true d = field (codes "bookmarks") d

-- The elements that are strings.
string_elements : Values → List Bytes
string_elements nil = []
string_elements (cons (text s) vs) = s ∷ string_elements vs
string_elements (cons (bool b) vs) = string_elements vs
string_elements (cons (array a) vs) = string_elements vs
string_elements (cons other vs) = string_elements vs

unfoldable pub retrieved : List Bytes → BookmarkResponse
retrieved ids = record {
  success = true;
  message = codes "Bookmarks retrieved successfully";
  bookmarks = ids;
}

unfoldable pub refuse : Bytes → BookmarkResponse
refuse m = record { success = false; message = m; bookmarks = [] }

list_data : Option Value → Writer → Writer
unfolding string_elements
list_data none = send_response (retrieved []) 200
list_data (some (array vs)) = send_response (retrieved (string_elements vs)) 200
list_data (some v) = send_response (refuse (codes "Internal server error")) 500

list_document : Fetched → Writer → Writer
unfolding list_data bookmarks_data
list_document (snapshot e d) = list_data (bookmarks_data e d)
list_document _ = send_response (refuse (codes "User not found")) 404

module _ {W : Type 0} (db : Firestore W) (decode : Bytes → Option BookmarkRequest) where
  after_set : Writer → Bool → Writer
  after_set w true = deliver_message (codes "Bookmark added successfully") w
  after_set w false = http_error (codes "Failed to create bookmark") 500 w

  after_update : Bytes → Bytes → Writer → Bool → State W Writer
  unfolding after_set
  after_update user_id news_id w true = pure (after_set w true)
  after_update user_id news_id w false = do
    done ←
        db.set_doc (codes "users") user_id
          ((codes "bookmarks", array (cons (text news_id) nil)) ∷ [])
    pure (after_set w done)

  add_news : Bytes → Writer → Option BookmarkRequest → State W Writer
  unfolding after_update
  add_news user_id w none = pure (http_error (codes "Invalid request body") 400 w)
  add_news user_id w (some req) = do
    done ← db.array_union (codes "users") user_id (codes "bookmarks") req.news_id
    after_update user_id req.news_id w done

  unfoldable pub add_bookmarks_handlers : Handler W
  unfolding add_news
  add_bookmarks_handlers request w =
      let user_id = request.header (codes "X-API-Key") in
      if str_eq request.method (codes "POST")
      then (if str_eq user_id []
          then pure (http_error (codes "Missing X-API-Key header") 400 w)
          else add_news user_id w (decode request.body))
      else pure (http_error (codes "Method not allowed") 405 w)

  after_remove : Writer → Bool → Writer
  after_remove w true = deliver_message (codes "Bookmark deleted successfully") w
  after_remove w false = http_error (codes "Failed to delete bookmark") 500 w

  remove_news : Bytes → Writer → Option BookmarkRequest → State W Writer
  unfolding after_remove
  remove_news user_id w none = pure (http_error (codes "Invalid request body") 400 w)
  remove_news user_id w (some req) = do
    done ← db.array_remove (codes "users") user_id (codes "bookmarks") req.news_id
    pure (after_remove w done)

  unfoldable pub remove_bookmarks : Handler W
  unfolding remove_news
  remove_bookmarks request w =
      let user_id = request.header (codes "X-API-Key") in
      if str_eq request.method (codes "DELETE")
      then (if str_eq user_id []
          then pure (http_error (codes "Missing X-API-Key header") 400 w)
          else remove_news user_id w (decode request.body))
      else pure (http_error (codes "Method not allowed") 405 w)

module _ {W : Type 0} (db : Firestore W) where
  unfoldable pub list_bookmarks : Handler W
  unfolding list_document
  list_bookmarks request w =
      let api_key = request.header (codes "X-API-Key") in
      if str_eq request.method (codes "GET")
      then (if str_eq api_key []
          then pure (send_response (refuse (codes "Missing API key")) 401 w)
          else (do doc ← db.get_doc (codes "users") api_key; pure (list_document doc w)))
      else pure (send_response (refuse (codes "Method not allowed")) 405 w)
