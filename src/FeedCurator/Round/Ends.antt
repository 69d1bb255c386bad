-- ===== src/FeedCurator/Round/Ends.antt =====
-- A round of feed-curator/main.go ends, and what it publishes.
use stockic_feed_api.Common.{ℕ, ◌<◌, ◌≡◌, refl, List, Option, some, length, arith}
use stockic_feed_api.Common.State.{State}
use stockic_feed_api.Go.Int.{sign_bit}
use stockic_feed_api.Go.Text.{Bytes, codes}
use stockic_feed_api.Stores.Minio.{Minio, Clock}
use stockic_feed_api.Stores.Redis.{Redis}
use stockic_feed_api.FeedCurator.Fetcher.{
  Fetch, discover_tags, fetch_headlines_by_country, news_discovery_by_category,
  news_api_headline_caller, news_api_everything_caller,
}
use stockic_feed_api.FeedCurator.Fetcher.Paging.{ServesPages, fetched_all, fetch_each-all}
use stockic_feed_api.FeedCurator.Models.{Article, ApiResponse, SummarizedResponse}
use stockic_feed_api.FeedCurator.Round.{
  all_countries, publish, after_discovery, after_headlines, curate,
}
use stockic_feed_api.FeedCurator.Storage.{Payload}

module _ {W : Type 0} (minio : Minio W) (clock : Clock W)
    (marshal_raw : Payload ApiResponse → Option Bytes)
    (marshal_archive : Payload SummarizedResponse → Option Bytes) (sha256 : Bytes → Bytes)
    (visit : List (Bytes × ApiResponse) → List (Bytes × ApiResponse)) (fresh_news : Redis W)
    (marshal : List (Bytes × SummarizedResponse) → Option Bytes)
    (unmarshal : Bytes → Option ApiResponse) (http_get : Bytes → State W Fetch) (api_key : Bytes)
    (decimal : ℕ → Bytes) (fuel : ℕ) (headlines topics : Bytes → List Article)
    (serves_headlines : (country : Bytes)
      → ServesPages
          (news_api_headline_caller unmarshal http_get api_key decimal fuel (codes "20") country)
          (headlines country)
          20)
    (serves_topics : (from to tag : Bytes)
      → ServesPages
          (news_api_everything_caller unmarshal http_get api_key decimal fuel
            (codes "en")
            (codes "publishedAt")
            from
            to
            tag)
          (topics tag)
          20)
    (few_headlines : (country : Bytes) → length (headlines country) < sign_bit)
    (few_topics : (tag : Bytes) → length (topics tag) < sign_bit)
    (enough_headlines : (country : Bytes) → length (headlines country) < fuel)
    (enough_topics : (tag : Bytes) → length (topics tag) < fuel) where
  -- If the news service answers with the pages of a list for every country and every tag, a round of
  -- the curator ends: it publishes the whole lists of its countries and its tags. One round of the
  -- page loops more than the longest list has articles is enough.
  pub curate-publishes :
      (world : W)
      → (world' : W) × (curate minio clock marshal_raw marshal_archive sha256 visit fresh_news
            marshal unmarshal http_get api_key decimal fuel world
          ≡ some (
              publish minio clock marshal_raw marshal_archive sha256 visit fresh_news marshal
                (fetched_all headlines all_countries)
                (fetched_all topics discover_tags)
                world'))
  unfolding curate after_headlines after_discovery fetch_headlines_by_country
      news_discovery_by_category
  curate-publishes world =
      let (world_1, fetched) =
        fetch_each-all
          (news_api_headline_caller unmarshal http_get api_key decimal fuel (codes "20")) headlines
          20 (omega arith) serves_headlines fuel few_headlines enough_headlines all_countries
          world in
      let (t, world_2) = clock.now world_1 in
      let (t', world_3) = clock.now world_2 in
      let from = clock.yesterday t' in
      let to = clock.today t in
      let (world_4, found) =
        fetch_each-all
          (news_api_everything_caller unmarshal http_get api_key decimal fuel (codes "en")
            (codes "publishedAt") from to)
          topics 20 (omega arith) (serves_topics from to) fuel few_topics enough_topics
          discover_tags world_3 in
      (world_4, rw (fetched, after_headlines) (rw (found, after_discovery) refl))
