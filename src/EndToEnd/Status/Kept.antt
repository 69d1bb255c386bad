-- ===== src/EndToEnd/Status/Kept.antt =====
-- In any interleaving, requests about bookmarks do not change who is premium, and no cached status
-- becomes wrong by them.
use stockic_feed_api.Common.{refl, ◌∙◌, Option}
use stockic_feed_api.Go.Text.{Bytes}
use stockic_feed_api.Stores.Codec.{Codec, RoundTrip}
use stockic_feed_api.Stores.Firestore.{Firestore}
use stockic_feed_api.Stores.Redis.{Redis}
use stockic_feed_api.FeedApi.Models.{UserStatus}
use stockic_feed_api.FeedApi.UserStatus.Backends.{Backends}
use stockic_feed_api.FeedApi.UserStatus.Coherence.{Coherent, validate_user_api_key-IsRight}
use stockic_feed_api.Actions.Bookmarks.Statuses.{
  Updates, KeepsStatus, Keeps-KeepsStatus, add_bookmarks_handlers-KeepsStatus,
  remove_bookmarks-KeepsStatus, list_bookmarks-KeepsStatus,
}
use stockic_feed_api.Actions.Models.{BookmarkRequest}
use stockic_feed_api.EndToEnd.Status.{Step, validated, added, removed, listed, Reach, here, next}

module _ {W : Type 0} (cache : Redis W) (db : Firestore W) (json : Codec UserStatus)
    (decode : Bytes → Option BookmarkRequest) (backends : Backends cache db)
    (updates : Updates backends) (round_trip : RoundTrip json) where
  abbrev pub Kept : W → W → Type 0
  Kept = KeepsStatus cache db json decode backends updates

  Step-Kept :
      (s t : W) → Step cache db json decode s t → Coherent cache db json backends s → Kept s t
  Step-Kept s t (validated api_key is_t) coherent =
      let (coherent', same, right) =
        validate_user_api_key-IsRight cache db json backends round_trip api_key s coherent in
      rw is_t (Keeps-KeepsStatus cache db json decode backends updates s _ (coherent', same))
  Step-Kept s t (added request w done is_t) coherent = rw is_t (
      add_bookmarks_handlers-KeepsStatus cache db json decode backends updates request w s coherent
        done)
  Step-Kept s t (removed request w is_t) coherent =
      rw is_t
        (remove_bookmarks-KeepsStatus cache db json decode backends updates request w s coherent)
  Step-Kept s t (listed request w is_t) coherent =
      rw is_t
        (list_bookmarks-KeepsStatus cache db json decode backends updates request w s coherent)

  -- In any interleaving of validations with requests that add, remove and list bookmarks, in which no
  -- update of an addition fails, every user keeps the status that the user had, and every readable
  -- entry of the cache is the status of its user, if this was so at the start.
  pub Reach-Kept :
      (s t : W) → Reach cache db json decode s t → Coherent cache db json backends s → Kept s t
  Reach-Kept s t here coherent = (coherent, λ key. refl)
  Reach-Kept s t (next {t = m} before step) coherent =
      let (coherent', same) = Reach-Kept s m before coherent in
      let (coherent'', same') = Step-Kept m t step coherent' in
      (coherent'', λ key. same' key ∙ same key)
