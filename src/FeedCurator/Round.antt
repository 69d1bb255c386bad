-- ===== src/FeedCurator/Round.antt =====
-- One round of the loop of feed-curator/main.go, up to the wait for midnight. `http_get`, `unmarshal`,
-- `decimal` and `fuel` are those of the fetcher. Printing and log messages are left out.
pub mod Ends
pub mod Outage
use stockic_feed_api.Common.{List, [], ◌∷◌, Option, none, some, ℕ}
use stockic_feed_api.Common.State.{State, ◌>>=◌, ◌>>◌}
use stockic_feed_api.Go.Process.{Ending, and_then}
use stockic_feed_api.Go.Text.{Bytes, codes}
use stockic_feed_api.Stores.Minio.{Minio, Clock}
use stockic_feed_api.Stores.Redis.{Redis}
use stockic_feed_api.FeedCurator.Fetcher.{
  Fetch, fetch_headlines_by_country, news_discovery_by_category,
}
use stockic_feed_api.FeedCurator.Models.{ApiResponse, SummarizedResponse}
use stockic_feed_api.FeedCurator.Storage.{
  Payload, upload_news_api_response_data_to_minio, upload_news_api_summarized_data_to_minio,
  store_summarized_redis,
}
use stockic_feed_api.FeedCurator.Summarizer.{
  summarize_country_categorized_headlines, summarize_categorized_news,
}

abbrev pub all_countries : List Bytes
all_countries =
    codes "us"
    ∷ codes "gb"
    ∷ codes "de"
    ∷ codes "fr"
    ∷ codes "it"
    ∷ codes "es"
    ∷ codes "pl"
    ∷ codes "nl"
    ∷ codes "cn"
    ∷ codes "in"
    ∷ codes "jp"
    ∷ codes "kr"
    ∷ codes "sg"
    ∷ codes "hk"
    ∷ codes "au"
    ∷ codes "nz"
    ∷ []

-- `visit` is the order in which the loops of the summarizer visit the entries of a map.
module _ {W : Type 0} (minio : Minio W) (clock : Clock W)
    (marshal_raw : Payload ApiResponse → Option Bytes)
    (marshal_archive : Payload SummarizedResponse → Option Bytes) (sha256 : Bytes → Bytes)
    (visit : List (Bytes × ApiResponse) → List (Bytes × ApiResponse)) (fresh_news : Redis W)
    (marshal : List (Bytes × SummarizedResponse) → Option Bytes) where
  unfoldable pub store_both :
      List (Bytes × SummarizedResponse) → List (Bytes × SummarizedResponse) → State W Ending
  store_both summarized categorized = do
    ending ← store_summarized_redis fresh_news marshal (codes "headlines") summarized
    and_then ending (store_summarized_redis fresh_news marshal (codes "discover") categorized)

  -- From the fetched news to the cache; errors of the uploads are only logged.
  unfoldable pub publish : List (Bytes × ApiResponse) → List (Bytes × ApiResponse) → State W Ending
  publish headlines discovery =
      let summarized = summarize_country_categorized_headlines sha256 (visit headlines) in
      let categorized = summarize_categorized_news sha256 (visit discovery) in
      (do
        upload_news_api_response_data_to_minio minio clock marshal_raw headlines
            (codes "raw-news-archive")
        upload_news_api_response_data_to_minio minio clock marshal_raw discovery
            (codes "raw-news-archive")
        upload_news_api_summarized_data_to_minio minio clock marshal_archive summarized
            (codes "summarized-news-archive")
        upload_news_api_summarized_data_to_minio minio clock marshal_archive categorized
            (codes "summarized-news-archive")
        store_both summarized categorized)

  module _ (unmarshal : Bytes → Option ApiResponse) (http_get : Bytes → State W Fetch)
      (api_key : Bytes) (decimal : ℕ → Bytes) (fuel : ℕ) where
    abbrev pub discover : W → Option (List (Bytes × ApiResponse) × W)
    discover world =
        let (t, world_1) = clock.now world in
        let (t', world_2) = clock.now world_1 in
        news_discovery_by_category unmarshal http_get api_key decimal fuel (codes "en")
          (codes "publishedAt") (clock.yesterday t') (clock.today t) world_2

    unfoldable pub after_discovery :
        List (Bytes × ApiResponse) → Option (List (Bytes × ApiResponse) × W) → Option (Ending × W)
    after_discovery headlines none = none
    after_discovery headlines (some (discovery, world)) = some (publish headlines discovery world)

    unfoldable pub after_headlines : Option (List (Bytes × ApiResponse) × W) → Option (Ending × W)
    after_headlines none = none
    after_headlines (some (headlines, world)) = after_discovery headlines (discover world)

    -- `none` is a round whose fetching has not ended within the fuel.
    unfoldable pub curate : W → Option (Ending × W)
    curate world = after_headlines (
        fetch_headlines_by_country unmarshal http_get api_key decimal fuel all_countries
          (codes "20") world)
