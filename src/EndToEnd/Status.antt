-- ===== src/EndToEnd/Status.antt =====
-- feed-api and actions over one Firestore and one cache of statuses: validations by either service
-- and requests about bookmarks, in any order. Both services validate with the same text.
pub mod Kept
use stockic_feed_api.Common.{◌≡◌, true, Option, some}
use stockic_feed_api.Go.Http.{Request}
use stockic_feed_api.Go.Text.{Bytes, codes}
use stockic_feed_api.Stores.Codec.{Codec}
use stockic_feed_api.Stores.Firestore.{Firestore}
use stockic_feed_api.Stores.Redis.{Redis}
use stockic_feed_api.FeedApi.Models.{UserStatus}
use stockic_feed_api.FeedApi.UserStatus.{validate_user_api_key}
use stockic_feed_api.Actions.Base.{Writer}
use stockic_feed_api.Actions.Bookmarks.{add_bookmarks_handlers, remove_bookmarks, list_bookmarks}
use stockic_feed_api.Actions.Models.{BookmarkRequest}

module _ {W : Type 0} (cache : Redis W) (db : Firestore W) (json : Codec UserStatus)
    (decode : Bytes → Option BookmarkRequest) where
  pub data Step (s : W) (t : W) : Type 0 where
    validated : (api_key : Bytes) → t ≡ (validate_user_api_key cache db json api_key s).1 → Step s t
    -- where `Update` fails, the handler replaces the document
    added :
        (request : Request) (w : Writer)
        → ((req : BookmarkRequest)
            → decode request.body ≡ some req
            → (db.array_union
                (codes "users")
                (request.header (codes "X-API-Key"))
                (codes "bookmarks")
                req.news_id
                s).0
              ≡ true)
        → t ≡ (add_bookmarks_handlers db decode request w s).1
        → Step s t
    removed :
        (request : Request) (w : Writer) → t ≡ (remove_bookmarks db decode request w s).1 → Step s t
    listed : (request : Request) (w : Writer) → t ≡ (list_bookmarks db request w s).1 → Step s t

  pub data Reach (s : W) : W → Type 0 where
    here : Reach s s
    next : {t u : W} → Reach s t → Step t u → Reach s u
