-- ===== src/FeedCurator/Round/Outage.antt =====
-- A round of feed-curator/main.go while the news service is down.
use stockic_feed_api.Common.{ℕ, suc, ◌≡◌, refl, List, Option, some}
use stockic_feed_api.Common.State.{State}
use stockic_feed_api.Go.Text.{Bytes, codes}
use stockic_feed_api.Stores.Minio.{Minio, Clock}
use stockic_feed_api.Stores.Redis.{Redis}
use stockic_feed_api.FeedCurator.Fetcher.{
  Fetch, discover_tags, fetch_headlines_by_country, news_discovery_by_category,
  news_api_headline_caller, news_api_everything_caller,
}
use stockic_feed_api.FeedCurator.Fetcher.Outage.{
  IsFailure, nothing, asked_once, fetch_each-nothing, news_api_headline_caller-fails,
  news_api_everything_caller-fails,
}
use stockic_feed_api.FeedCurator.Fetcher.Paging.{fetched_all}
use stockic_feed_api.FeedCurator.Models.{ApiResponse, SummarizedResponse}
use stockic_feed_api.FeedCurator.Round.{
  all_countries, publish, after_discovery, after_headlines, curate,
}
use stockic_feed_api.FeedCurator.Storage.{Payload}

module _ {W : Type 0} (clock : Clock W) (unmarshal : Bytes → Option ApiResponse)
    (http_get : Bytes → State W Fetch) (api_key : Bytes) (decimal : ℕ → Bytes) (fuel : ℕ)
    (down : (url : Bytes) (w : W) → IsFailure (http_get url w).0) where
  -- The world when every country and every tag was asked for once.
  abbrev pub after_countries : W → W
  after_countries =
      asked_once
        (news_api_headline_caller unmarshal http_get api_key decimal (suc fuel) (codes "20"))
        all_countries

  abbrev pub after_requests : W → W
  after_requests world =
      let (t, world_2) = clock.now (after_countries world) in
      let (t', world_3) = clock.now world_2 in
      asked_once
        (news_api_everything_caller unmarshal http_get api_key decimal (suc fuel) (codes "en")
          (codes "publishedAt") (clock.yesterday t') (clock.today t))
        discover_tags world_3

  pub fetch_headlines_by_country-nothing :
      (world : W)
      → fetch_headlines_by_country unmarshal http_get api_key decimal
          (suc fuel)
          all_countries
          (codes "20")
          world
        ≡ some (fetched_all nothing all_countries, after_countries world)
  unfolding fetch_headlines_by_country
  fetch_headlines_by_country-nothing world = fetch_each-nothing _ fuel all_countries world (
      news_api_headline_caller-fails unmarshal http_get down api_key decimal (suc fuel)
        (codes "20"))

  news_discovery_by_category-nothing :
      (from to : Bytes) (world : W)
      → news_discovery_by_category unmarshal http_get api_key decimal
          (suc fuel)
          (codes "en")
          (codes "publishedAt")
          from
          to
          world
        ≡ some (
          fetched_all nothing discover_tags,
          asked_once
              (news_api_everything_caller unmarshal http_get api_key decimal
                (suc fuel)
                (codes "en")
                (codes "publishedAt")
                from
                to)
              discover_tags
              world,
        )
  unfolding news_discovery_by_category
  news_discovery_by_category-nothing from to world = fetch_each-nothing _ fuel discover_tags world (
      news_api_everything_caller-fails unmarshal http_get down api_key decimal (suc fuel)
        (codes "en") (codes "publishedAt") from to)

  -- If every request fails, a round asks once for each country and tag, and goes on to publish no
  -- articles for any.
  pub curate-nothing :
      (minio : Minio W) (marshal_raw : Payload ApiResponse → Option Bytes)
      (marshal_archive : Payload SummarizedResponse → Option Bytes) (sha256 : Bytes → Bytes)
      (visit : List (Bytes × ApiResponse) → List (Bytes × ApiResponse)) (fresh_news : Redis W)
      (marshal : List (Bytes × SummarizedResponse) → Option Bytes) (world : W)
      → curate minio clock marshal_raw marshal_archive sha256 visit fresh_news marshal unmarshal
          http_get api_key decimal
          (suc fuel)
          world
        ≡ some (
            publish minio clock marshal_raw marshal_archive sha256 visit fresh_news marshal
              (fetched_all nothing all_countries)
              (fetched_all nothing discover_tags)
              (after_requests world))
  unfolding curate after_headlines after_discovery
  curate-nothing minio marshal_raw marshal_archive sha256 visit fresh_news marshal world =
      rw (fetch_headlines_by_country-nothing world, news_discovery_by_category-nothing) refl
