-- ===== src/EndToEnd/Opened.antt =====
-- Every headline that feed-api serves can be opened under its id.
use mathlib.Core.List.{Memᴰ}
use mathlib.Core.Option.{some-injective}
use stockic_feed_api.Common.{
  ℕ, ◌≡◌, ◌≢◌, refl, sym, ◌∙◌, List, [], ◌∷◌, ◌++◌, Option, some, All, map,
}
use stockic_feed_api.Common.State.{State}
use stockic_feed_api.Go.Http.{Request}
use stockic_feed_api.Go.Process.{Ending, exited}
use stockic_feed_api.Go.Text.{Bytes, codes}
use stockic_feed_api.Go.Text.Laws.{Lacks}
use stockic_feed_api.Stores.Codec.{Codec}
use stockic_feed_api.Stores.Minio.{Minio, Clock}
use stockic_feed_api.Stores.Redis.{Redis, value}
use stockic_feed_api.FeedApi.FindArticle.{News}
use stockic_feed_api.FeedApi.Handlers.Base.{article, Writer, increment, json_response}
use stockic_feed_api.FeedApi.Handlers.Detail.{redis_key, detail_handler}
use stockic_feed_api.FeedApi.Handlers.Opened.{All-Memᴰ, lookup-articles_of, detail_handler-opens}
use stockic_feed_api.FeedApi.Models.{SummarizedArticle}
use stockic_feed_api.FeedCurator.Fetcher.{Fetch}
use stockic_feed_api.FeedCurator.Models as curator
use stockic_feed_api.FeedCurator.Models.{ApiResponse}
use stockic_feed_api.FeedCurator.Storage.{Payload}
use stockic_feed_api.FeedCurator.Summarizer.{
  headline_image, summarize_country_categorized_headlines,
}
use stockic_feed_api.FeedCurator.Summarizer.Categories.{entry_of}
use stockic_feed_api.FeedCurator.Summarizer.Published.{IsPublished, summarize_articles-IsPublished}
use stockic_feed_api.EndToEnd.{read_article, Agrees, IsStore}
use stockic_feed_api.EndToEnd.Headlines.{
  published, decoded-published, fetch_headlines, run_round, curate-stored,
}

-- The id of a published article can stand in a path.
published-Lacks :
    (sha256 : Bytes → Bytes) (articles : List curator.SummarizedArticle)
    → All (IsPublished sha256) articles
    → All (λ (a : SummarizedArticle). Lacks b'/' a.stockic_id) (map read_article articles)
published-Lacks sha256 [] h = tt
published-Lacks sha256 (a ∷ articles) (p, h) = (p.one_part, published-Lacks sha256 articles h)

module _ {W : Type 0} (fresh_news : Redis W)
    (marshal : List (Bytes × curator.SummarizedResponse) → Option Bytes) (codec : Codec News)
    (agrees : Agrees marshal codec) (sha256 : Bytes → Bytes)
    (visit : List (Bytes × ApiResponse) → List (Bytes × ApiResponse))
    (visits_all : (key : Bytes) (m : List (Bytes × ApiResponse))
      → entry_of key (visit m) ≡ entry_of key m)
    (entries : W → Bytes → Option Bytes) (store : IsStore fresh_news entries)
    (headlines : List (Bytes × ApiResponse)) (text : Bytes)
    (encoded : marshal (summarize_country_categorized_headlines sha256 (visit headlines))
      ≡ some text) where
  -- A request for the id of a published article, in a world whose cache holds the encoded summaries.
  pub stored-opens :
      (country : Bytes) (r : ApiResponse) (a : SummarizedArticle) (request : Request) (w : Writer)
      (reply d : Bytes) (world world_2 world_3 : W)
      → entries world (codes "headlines") ≡ some text
      → entry_of country headlines ≡ some r
      → Memᴰ a (published sha256 r)
      → request.method ≡ codes "GET"
      → request.path ≡ codes "/api/v2/detail/" ++ a.stockic_id
      → fresh_news.get (codes "headlines") world ≡ (value reply, world_2)
      → fresh_news.get (codes "discover") world_2 ≡ (value d, world_3)
      → (b : SummarizedArticle) × (b.stockic_id ≡ a.stockic_id)
        × (detail_handler fresh_news codec request w world
            ≡ some (
              json_response (article b) w,
              increment (redis_key a.stockic_id (request.header (codes "X-API-Key"))) ∷ [],
              world_3,
            ))
  stored-opens country r a request w reply d world world_2 world_3 stored there m get path read
        read_next =
      let same : reply ≡ text =
        some-injective _ _
          (sym (store.get_reads (codes "headlines") world reply (rw read refl)) ∙ stored) in
      let (news, decoded, found) =
        decoded-published fresh_news marshal codec agrees sha256 visit visits_all headlines country
          text r there encoded in
      let whole =
        All-Memᴰ _ _
          (published-Lacks sha256 _
            (summarize_articles-IsPublished sha256 headline_image (λ e. cc) r.articles).0)
          m in
      detail_handler-opens fresh_news codec w request world world_2 world_3 reply d a whole get path
        read read_next (rw (same, decoded) (lookup-articles_of country news _ a found m))

module _ {W : Type 0} (fresh_news : Redis W)
    (marshal : List (Bytes × curator.SummarizedResponse) → Option Bytes) (codec : Codec News)
    (agrees : Agrees marshal codec) (sha256 : Bytes → Bytes)
    (visit : List (Bytes × ApiResponse) → List (Bytes × ApiResponse))
    (visits_all : (key : Bytes) (m : List (Bytes × ApiResponse))
      → entry_of key (visit m) ≡ entry_of key m)
    (minio : Minio W) (clock : Clock W) (marshal_raw : Payload ApiResponse → Option Bytes)
    (marshal_archive : Payload curator.SummarizedResponse → Option Bytes)
    (unmarshal : Bytes → Option ApiResponse) (http_get : Bytes → State W Fetch) (api_key : Bytes)
    (decimal : ℕ → Bytes) (fuel : ℕ) (entries : W → Bytes → Option Bytes)
    (store : IsStore fresh_news entries) (world world_1 world' : W)
    (headlines : List (Bytes × ApiResponse)) (ending : Ending) (text : Bytes)
    (fetched : fetch_headlines fresh_news marshal codec agrees sha256 visit visits_all minio clock
        marshal_raw marshal_archive unmarshal http_get api_key decimal fuel world
      ≡ some (headlines, world_1))
    (encoded : marshal (summarize_country_categorized_headlines sha256 (visit headlines))
      ≡ some text)
    (ran : run_round fresh_news marshal codec agrees sha256 visit visits_all minio clock marshal_raw
        marshal_archive unmarshal http_get api_key decimal fuel world
      ≡ some (ending, world'))
    (goes_on : ending ≢ exited) where
  -- After a round of the curator that could encode the summaries of the headlines it fetched and
  -- did not end the process, a request for the id of any published article of any country is
  -- answered with an article of this id, and one read of it by this user is counted, as long as
  -- the two entries of the cache can be read.
  pub curate-opens :
      (country : Bytes) (r : ApiResponse) (a : SummarizedArticle) (request : Request) (w : Writer)
      (reply d : Bytes) (world_2 world_3 : W)
      → entry_of country headlines ≡ some r
      → Memᴰ a (published sha256 r)
      → request.method ≡ codes "GET"
      → request.path ≡ codes "/api/v2/detail/" ++ a.stockic_id
      → fresh_news.get (codes "headlines") world' ≡ (value reply, world_2)
      → fresh_news.get (codes "discover") world_2 ≡ (value d, world_3)
      → (b : SummarizedArticle) × (b.stockic_id ≡ a.stockic_id)
        × (detail_handler fresh_news codec request w world'
            ≡ some (
              json_response (article b) w,
              increment (redis_key a.stockic_id (request.header (codes "X-API-Key"))) ∷ [],
              world_3,
            ))
  curate-opens country r a request w reply d world_2 world_3 =
      stored-opens fresh_news marshal codec agrees sha256 visit visits_all entries store headlines
        text encoded country r a request w reply d world' world_2 world_3
        (curate-stored fresh_news marshal codec agrees sha256 visit visits_all minio clock
          marshal_raw marshal_archive unmarshal http_get api_key decimal fuel entries store world
          world_1 world' headlines ending text fetched encoded ran goes_on)
