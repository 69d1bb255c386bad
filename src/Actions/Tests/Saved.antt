-- ===== src/Actions/Tests/Saved.antt =====
-- Bookmarks of one user.
use stockic_feed_api.Common.{◌≡◌, refl, true, false, List, [], ◌∷◌, Option, none, some}
use stockic_feed_api.Go.Http.{Request, fresh, write}
use stockic_feed_api.Go.Text.{Bytes, codes, str_eq}
use stockic_feed_api.Stores.Firestore.{bool, Document, nil, cons, text, array}
use stockic_feed_api.Stores.Firestore.Documents.{contains}
use stockic_feed_api.Actions.Base.{deliver_message, send_response}
use stockic_feed_api.Actions.Bookmarks.{
  add_bookmarks_handlers, remove_bookmarks, list_bookmarks, retrieved,
}
use stockic_feed_api.Actions.Bookmarks.Listed.{remove_bookmarks-unlisted}
use stockic_feed_api.Actions.Bookmarks.Guards.{only, add_bookmarks_handlers-replaces}
use stockic_feed_api.FeedApi.UserStatus.{status}
use stockic_feed_api.FeedApi.UserStatus.Backends.{status_of}
use stockic_feed_api.Actions.Models.{BookmarkRequest}
use stockic_feed_api.Actions.Tests.Stores.{World, test_db, test_db-IsDocumentStore, documents}

abbrev decode : Bytes → Option BookmarkRequest
decode s = some (record { news_id = s })

abbrev request : Bytes → Bytes → Request
request method body = record {
  method = method;
  path = [];
  header = λ name. codes "u1";
  query = λ name. [];
  remote_addr = [];
  body = body;
}

abbrev paid : Document
paid = (codes "premium-status", bool true) ∷ []

abbrev world : World
world = record { sessions = []; user = some paid }

abbrev saved : Document
saved =
    (codes "premium-status", bool true)
    ∷ (codes "bookmarks", array (cons (text (codes "n7")) nil))
    ∷ []

abbrev saved_world : World
saved_world = record { sessions = []; user = some saved }

abbrev emptied : Document
emptied = (codes "premium-status", bool true) ∷ (codes "bookmarks", array nil) ∷ []

remove_bookmarks-unlisted_example :
    (ids : List Bytes) × ((list_bookmarks test_db
        (request (codes "GET") [])
        fresh
        (remove_bookmarks test_db decode
          (request (codes "DELETE") (codes "n7"))
          fresh
          saved_world).1).0
      ≡ send_response (retrieved ids) 200 fresh)
    × (contains (codes "n7") ids ≡ false)
unfolding str_eq remove_bookmarks deliver_message write
remove_bookmarks-unlisted_example =
    remove_bookmarks-unlisted test_db decode documents test_db-IsDocumentStore
      (request (codes "GET") []) refl refl (request (codes "DELETE") (codes "n7"))
      (record { news_id = codes "n7" }) saved_world emptied refl refl refl refl refl

abbrev unknown_world : World
unknown_world = record { sessions = []; user = none }

add_bookmarks_handlers-replaces_example :
    ((add_bookmarks_handlers test_db decode
        (request (codes "POST") (codes "n7"))
        fresh
        unknown_world).0
      ≡ deliver_message (codes "Bookmark added successfully") fresh)
    × (documents
          (add_bookmarks_handlers test_db decode
            (request (codes "POST") (codes "n7"))
            fresh
            unknown_world).1
          (codes "users")
          (codes "u1")
        ≡ some (only test_db decode (codes "n7")))
    × (status_of (some (only test_db decode (codes "n7"))) ≡ status true false)
unfolding str_eq
add_bookmarks_handlers-replaces_example =
    add_bookmarks_handlers-replaces test_db decode documents test_db-IsDocumentStore
      (request (codes "POST") (codes "n7")) (record { news_id = codes "n7" }) fresh unknown_world
      (codes "u1") refl refl refl refl refl refl
