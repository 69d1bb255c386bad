-- ===== src/EndToEnd/Outage.antt =====
-- What feed-api serves after a round of the curator while the news service was down.
use stockic_feed_api.Common.{
  ℕ, suc, ◌<◌, ◌≡◌, ◌≢◌, refl, List, [], Option, some, take_all, length, ◌≤◌, get_elem?, arith,
}
use stockic_feed_api.Common.State.{State}
use stockic_feed_api.Go.Http.{Request}
use stockic_feed_api.Go.Int.{sign_bit}
use stockic_feed_api.Go.Process.{Ending, exited}
use stockic_feed_api.Go.Text.{Bytes, codes, str_eq}
use stockic_feed_api.Stores.Codec.{Codec}
use stockic_feed_api.Stores.Minio.{Minio, Clock}
use stockic_feed_api.Stores.Redis.{Redis, value}
use stockic_feed_api.FeedApi.FindArticle.{News}
use stockic_feed_api.FeedApi.Handlers.Base.{Writer, path_parts, positive_number}
use stockic_feed_api.FeedApi.Handlers.Lists.{headlines_handler}
use stockic_feed_api.FeedApi.Handlers.Served.{Serves}
use stockic_feed_api.FeedApi.Models.{SummarizedArticle}
use stockic_feed_api.FeedCurator.Fetcher.{Fetch, discover_tags, fetched_response}
use stockic_feed_api.FeedCurator.Fetcher.Outage.{IsFailure, nothing}
use stockic_feed_api.FeedCurator.Fetcher.Paging.{fetched_all}
use stockic_feed_api.FeedCurator.Models as curator
use stockic_feed_api.FeedCurator.Models.{ApiResponse}
use stockic_feed_api.FeedCurator.Round.{all_countries, publish, curate}
use stockic_feed_api.FeedCurator.Round.Outage.{
  after_countries, after_requests, fetch_headlines_by_country-nothing, curate-nothing,
}
use stockic_feed_api.FeedCurator.Storage.{Payload}
use stockic_feed_api.FeedCurator.Summarizer.{
  summarize_articles, summarize_country_categorized_headlines,
}
use stockic_feed_api.FeedCurator.Summarizer.Categories.{entry_of}
use stockic_feed_api.EndToEnd.{Agrees, IsStore}
use stockic_feed_api.EndToEnd.Headlines.{published, curate-Serves}

abbrev none_shown : List SummarizedArticle
none_shown = []

us-nothing : entry_of (codes "us") (fetched_all nothing all_countries) ≡ some (fetched_response [])
unfolding entry_of str_eq
us-nothing = refl

module _ {W : Type 0} (fresh_news : Redis W)
    (marshal : List (Bytes × curator.SummarizedResponse) → Option Bytes) (codec : Codec News)
    (agrees : Agrees marshal codec) (sha256 : Bytes → Bytes)
    (visit : List (Bytes × ApiResponse) → List (Bytes × ApiResponse))
    (visits_all : (key : Bytes) (m : List (Bytes × ApiResponse))
      → entry_of key (visit m) ≡ entry_of key m)
    (minio : Minio W) (clock : Clock W) (marshal_raw : Payload ApiResponse → Option Bytes)
    (marshal_archive : Payload curator.SummarizedResponse → Option Bytes)
    (unmarshal : Bytes → Option ApiResponse) (http_get : Bytes → State W Fetch) (api_key : Bytes)
    (decimal : ℕ → Bytes) (fuel : ℕ) (down : (url : Bytes) (w : W) → IsFailure (http_get url w).0)
    (entries : W → Bytes → Option Bytes) (store : IsStore fresh_news entries) (world : W) where
  -- How a round ends in which no request succeeds, and the world after it.
  abbrev pub ended : Ending × W
  ended =
      publish minio clock marshal_raw marshal_archive sha256 visit fresh_news marshal
        (fetched_all nothing all_countries) (fetched_all nothing discover_tags)
        (after_requests clock unmarshal http_get api_key decimal fuel down world)

  -- If no request to the news service succeeds, a round of the curator with any fuel but zero still
  -- publishes; if it could encode the summaries of no articles and did not end the process, feed-api
  -- then answers a request for headlines with an empty page, whatever the cache held before the round,
  -- as long as the cache can be read.
  pub curate-Serves-nothing :
      (text : Bytes) (request : Request) (w : Writer) (reply s : Bytes) (size : ℕ)
      → marshal (
          summarize_country_categorized_headlines sha256
            (visit (fetched_all nothing all_countries)))
        ≡ some text
      → ended.0 ≢ exited
      → (fresh_news.get (codes "headlines") ended.1).0 ≡ value reply
      → request.method ≡ codes "GET"
      → get_elem? (path_parts request) 4 ≡ some s
      → positive_number s ≡ some size
      → (curate minio clock marshal_raw marshal_archive sha256 visit fresh_news marshal unmarshal
            http_get api_key decimal
            (suc fuel)
            world
          ≡ some ended)
        × Serves
            (headlines_handler fresh_news codec request w ended.1)
            w
            []
            []
            (fresh_news.get (codes "headlines") ended.1).1
  unfolding summarize_articles
  curate-Serves-nothing text request w reply s size encoded goes_on read get part number =
      let ran =
        curate-nothing clock unmarshal http_get api_key decimal fuel down minio marshal_raw
          marshal_archive sha256 visit fresh_news marshal world in
      let small : length (published sha256 (fetched_response [])) < sign_bit = omega arith in
      let served =
        curate-Serves fresh_news marshal codec agrees sha256 visit visits_all minio clock
          marshal_raw marshal_archive unmarshal http_get api_key decimal (suc fuel) entries store
          world (after_countries clock unmarshal http_get api_key decimal fuel down world) ended.1
          (fetched_all nothing all_countries) ended.0 text
          (fetch_headlines_by_country-nothing clock unmarshal http_get api_key decimal fuel down
            world)
          encoded ran goes_on (fetched_response []) request w reply s size us-nothing read get part
          number small in
      let z_le : length none_shown ≤ size = omega arith in
      (ran, rw (take_all size none_shown z_le) at served)
