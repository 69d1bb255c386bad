-- ===== src/EndToEnd/Headlines.antt =====
-- The headlines that a round of the curator fetches are the headlines that feed-api serves.
use mathlib.Core.Option.{some-injective}
use stockic_feed_api.Common.{
  ℕ, ◌<◌, ◌≡◌, ◌≢◌, sym, ap, ◌∙◌, List, Option, none, some, map, length, take, get_elem?,
}
use stockic_feed_api.Common.State.{State}
use stockic_feed_api.Go.Http.{Request}
use stockic_feed_api.Go.Int.{sign_bit}
use stockic_feed_api.Go.Process.{Ending, exited}
use stockic_feed_api.Go.Text.{Bytes, codes}
use stockic_feed_api.Stores.Codec.{Codec}
use stockic_feed_api.Stores.Minio.{Minio, Clock}
use stockic_feed_api.Stores.Redis.{Redis, value}
use stockic_feed_api.FeedApi.FindArticle.{News}
use stockic_feed_api.FeedApi.Handlers.Base.{Writer, path_parts, positive_number}
use stockic_feed_api.FeedApi.Handlers.Lists.{
  lookup, articles_at, articles_or_zero, headlines_handler,
}
use stockic_feed_api.FeedApi.Handlers.Served.{Serves, headlines_handler-Serves}
use stockic_feed_api.FeedApi.Models.{SummarizedArticle}
use stockic_feed_api.FeedCurator.Fetcher.{Fetch, fetch_headlines_by_country}
use stockic_feed_api.FeedCurator.Models as curator
use stockic_feed_api.FeedCurator.Models.{ApiResponse}
use stockic_feed_api.FeedCurator.Round.{
  publish, after_discovery, after_headlines, curate, all_countries,
}
use stockic_feed_api.FeedCurator.Storage.{Payload}
use stockic_feed_api.FeedCurator.Summarizer.{
  headline_image, response_of, summarize_articles, summarize_country_categorized_headlines,
}
use stockic_feed_api.FeedCurator.Summarizer.Categories.{
  entry_of, on_response, summarize_country_categorized_headlines-entry_of,
}
use stockic_feed_api.EndToEnd.{read_article, read_entry, Agrees, IsStore}
use stockic_feed_api.EndToEnd.Stored.{publish-stored}

-- The summaries of the fetched articles of a country, as feed-api reads them.
abbrev pub published : (Bytes → Bytes) → ApiResponse → List SummarizedArticle
published sha256 r = map read_article (summarize_articles sha256 headline_image r.articles)

module _ {W : Type 0} (fresh_news : Redis W)
    (marshal : List (Bytes × curator.SummarizedResponse) → Option Bytes) (codec : Codec News)
    (agrees : Agrees marshal codec) (sha256 : Bytes → Bytes)
    (visit : List (Bytes × ApiResponse) → List (Bytes × ApiResponse))
    (visits_all : (key : Bytes) (m : List (Bytes × ApiResponse))
      → entry_of key (visit m) ≡ entry_of key m) where
  -- What feed-api decodes has the summaries of the country.
  pub decoded-published :
      (headlines : List (Bytes × ApiResponse)) (country text : Bytes) (r : ApiResponse)
      → entry_of country headlines ≡ some r
      → marshal (summarize_country_categorized_headlines sha256 (visit headlines)) ≡ some text
      → (news : News) × (codec.unmarshal text ≡ some news)
        × (lookup country news
            ≡ read_entry (some (response_of (summarize_articles sha256 headline_image r.articles))))
  decoded-published headlines country text r fetched encoded =
      let (news, decoded, same) =
        agrees (summarize_country_categorized_headlines sha256 (visit headlines)) text encoded in
      (
        news,
        decoded,
        same country
            ∙ ap read_entry (
                summarize_country_categorized_headlines-entry_of sha256 country (visit headlines)
                ∙ ap
                    (on_response
                      (λ s. response_of (summarize_articles sha256 headline_image s.articles)))
                    (visits_all country headlines ∙ fetched)),
      )

  articles_at-published :
      (country : Bytes) (news : News) (r : ApiResponse)
      → lookup country news
        ≡ read_entry (some (response_of (summarize_articles sha256 headline_image r.articles)))
      → articles_at country news ≡ published sha256 r
  unfolding articles_at
  articles_at-published country news r found = ap articles_or_zero found

  module _ (minio : Minio W) (clock : Clock W) (marshal_raw : Payload ApiResponse → Option Bytes)
      (marshal_archive : Payload curator.SummarizedResponse → Option Bytes)
      (unmarshal : Bytes → Option ApiResponse) (http_get : Bytes → State W Fetch) (api_key : Bytes)
      (decimal : ℕ → Bytes) (fuel : ℕ) where
    abbrev pub fetch_headlines : W → Option (List (Bytes × ApiResponse) × W)
    fetch_headlines =
        fetch_headlines_by_country unmarshal http_get api_key decimal fuel all_countries
          (codes "20")

    abbrev pub run_round : W → Option (Ending × W)
    run_round =
        curate minio clock marshal_raw marshal_archive sha256 visit fresh_news marshal unmarshal
          http_get api_key decimal fuel

    abbrev pub publishes : List (Bytes × ApiResponse) → List (Bytes × ApiResponse) → State W Ending
    publishes = publish minio clock marshal_raw marshal_archive sha256 visit fresh_news marshal

    after_discovery-publish :
        (headlines : List (Bytes × ApiResponse)) (o : Option (List (Bytes × ApiResponse) × W))
        (ending : Ending) (world' : W)
        → after_discovery minio clock marshal_raw marshal_archive sha256 visit fresh_news marshal
            unmarshal http_get api_key decimal fuel headlines o
          ≡ some (ending, world')
        → (discovery : List (Bytes × ApiResponse)) × (world_2 : W) × (publishes headlines discovery
              world_2
            ≡ (ending, world'))
    unfolding after_discovery
    after_discovery-publish headlines none ending world' e = cc
    after_discovery-publish headlines (some (discovery, world_2)) ending world' e =
        (discovery, world_2, some-injective _ _ e)

    -- A round publishes the headlines that it fetched.
    curate-publish :
        (world world_1 world' : W) (headlines : List (Bytes × ApiResponse)) (ending : Ending)
        → fetch_headlines world ≡ some (headlines, world_1)
        → run_round world ≡ some (ending, world')
        → (discovery : List (Bytes × ApiResponse)) × (world_2 : W) × (publishes headlines discovery
              world_2
            ≡ (ending, world'))
    unfolding curate after_headlines
    curate-publish world world_1 world' headlines ending fetched ran =
        after_discovery-publish headlines _ ending world' (rw fetched at ran)

    module _ (entries : W → Bytes → Option Bytes) (store : IsStore fresh_news entries)
        (world world_1 world' : W) (headlines : List (Bytes × ApiResponse)) (ending : Ending)
        (text : Bytes) (fetched : fetch_headlines world ≡ some (headlines, world_1))
        (encoded : marshal (summarize_country_categorized_headlines sha256 (visit headlines))
          ≡ some text)
        (ran : run_round world ≡ some (ending, world')) (goes_on : ending ≢ exited) where
      -- The cache holds the encoded summaries.
      pub curate-stored : entries world' (codes "headlines") ≡ some text
      curate-stored =
          let (discovery, world_2, e) =
            curate-publish world world_1 world' headlines ending fetched ran in
          let kept =
            publish-stored fresh_news marshal entries store minio clock marshal_raw marshal_archive
              sha256 visit headlines discovery text world_2 encoded in
          (rw e at kept) goes_on

      -- After a round of the curator that has fetched articles of the United States, could encode
      -- their summaries and did not end the process, feed-api serves the first of exactly these
      -- summaries, as many as a request for headlines asks for, to every user, as long as the cache
      -- can be read.
      pub curate-Serves :
          (r : ApiResponse) (request : Request) (w : Writer) (reply s : Bytes) (size : ℕ)
          → entry_of (codes "us") headlines ≡ some r
          → (fresh_news.get (codes "headlines") world').0 ≡ value reply
          → request.method ≡ codes "GET"
          → get_elem? (path_parts request) 4 ≡ some s
          → positive_number s ≡ some size
          → length (published sha256 r) < sign_bit
          → Serves
              (headlines_handler fresh_news codec request w world')
              w
              (published sha256 r)
              (take size (published sha256 r))
              (fresh_news.get (codes "headlines") world').1
      curate-Serves r request w reply s size us read get part number small =
          let stored = curate-stored in
          let (news, decoded, found) = decoded-published headlines (codes "us") text r us encoded in
          let same : reply ≡ text =
            some-injective _ _
              (sym (store.get_reads (codes "headlines") world' reply read) ∙ stored) in
          let shown = articles_at-published (codes "us") news r found in
          rw shown at (
            headlines_handler-Serves fresh_news codec request w world' get reply news read
              (rw same decoded) (rw shown small) s size part number)
