-- ===== src/EndToEnd/Stored.antt =====
-- What a round of the curator leaves in the news cache.
use stockic_feed_api.Common.{◌≡◌, ◌≢◌, refl, ◌∙◌, Bool, true, false, List, Option, none, some}
use stockic_feed_api.Go.Process.{Ending, returned, exited, and_then}
use stockic_feed_api.Go.Text.{Bytes, codes, str_eq}
use stockic_feed_api.Stores.Minio.{Minio, Clock}
use stockic_feed_api.Stores.Redis.{Redis}
use stockic_feed_api.FeedCurator.Models.{ApiResponse, SummarizedResponse}
use stockic_feed_api.FeedCurator.Round.{publish, store_both}
use stockic_feed_api.FeedCurator.Storage.{Payload, set_news, store_summarized_redis}
use stockic_feed_api.FeedCurator.Summarizer.{summarize_country_categorized_headlines}
use stockic_feed_api.EndToEnd.{IsStore}

module _ {W : Type 0} (fresh_news : Redis W)
    (marshal : List (Bytes × SummarizedResponse) → Option Bytes)
    (entries : W → Bytes → Option Bytes) (store : IsStore fresh_news entries) where
  -- A call that did not end the process has stored the text, if there was one.
  set_news-stored :
      (key text : Bytes) (w : W)
      → (set_news fresh_news marshal key (some text) w).0 ≢ exited
      → entries (set_news fresh_news marshal key (some text) w).1 key ≡ some text
  unfolding set_news
  set_news-stored key text w h = go (fresh_news.set key text 0 w).0 refl
    where
      go :
          (b : Bool)
          → (fresh_news.set key text 0 w).0 ≡ b
          → entries (fresh_news.set key text 0 w).1 key ≡ some text
      go true e = store.set_stores key text w e
      go false e = absurd (h (rw e refl))

  set_news-others :
      (key other : Bytes) (o : Option Bytes) (w : W)
      → str_eq key other ≡ false
      → entries (set_news fresh_news marshal key o w).1 other ≡ entries w other
  unfolding set_news
  set_news-others key other none w h = refl
  set_news-others key other (some text) w h = store.set_others key text other w h

  abbrev pub KeepsHeadlines : Bytes → Ending × W → Type 0
  KeepsHeadlines text (ending, w) = ending ≢ exited → entries w (codes "headlines") ≡ some text

  and_then-KeepsHeadlines :
      (text : Bytes) (discover : List (Bytes × SummarizedResponse)) (ending : Ending) (w : W)
      → KeepsHeadlines text (ending, w)
      → KeepsHeadlines text (
          and_then ending (store_summarized_redis fresh_news marshal (codes "discover") discover) w)
  unfolding store_summarized_redis str_eq
  and_then-KeepsHeadlines text discover exited w h = h
  and_then-KeepsHeadlines text discover (returned b) w h = λ runs.
      set_news-others (codes "discover") (codes "headlines") (marshal discover) w refl ∙ h (λ e. cc)

  store_headlines-KeepsHeadlines :
      (headlines : List (Bytes × SummarizedResponse)) (text : Bytes) (w : W)
      → marshal headlines ≡ some text
      → KeepsHeadlines text
          (store_summarized_redis fresh_news marshal (codes "headlines") headlines w)
  unfolding store_summarized_redis
  store_headlines-KeepsHeadlines headlines text w encoded =
      rw encoded (set_news-stored (codes "headlines") text w)

  module _ (minio : Minio W) (clock : Clock W) (marshal_raw : Payload ApiResponse → Option Bytes)
      (marshal_archive : Payload SummarizedResponse → Option Bytes) (sha256 : Bytes → Bytes)
      (visit : List (Bytes × ApiResponse) → List (Bytes × ApiResponse)) where
    -- A round that does not end the process leaves the encoded summaries of the headlines in the
    -- cache, if they can be encoded.
    pub publish-stored :
        (headlines discovery : List (Bytes × ApiResponse)) (text : Bytes) (w : W)
        → marshal (summarize_country_categorized_headlines sha256 (visit headlines)) ≡ some text
        → (publish minio clock marshal_raw marshal_archive sha256 visit fresh_news marshal headlines
            discovery w).0
          ≢ exited
        → entries
            (publish minio clock marshal_raw marshal_archive sha256 visit fresh_news marshal
              headlines discovery w).1
            (codes "headlines")
          ≡ some text
    unfolding publish store_both
    publish-stored headlines discovery text w encoded = and_then-KeepsHeadlines text _ _ _ (
        store_headlines-KeepsHeadlines
          (summarize_country_categorized_headlines sha256 (visit headlines)) text _ encoded)
