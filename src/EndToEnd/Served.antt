-- ===== src/EndToEnd/Served.antt =====
-- A published headline, from the fetch of the curator to the answer of feed-api's server.
use mathlib.Core.List.{Memᴰ}
use stockic_feed_api.Common.{ℕ, ◌≡◌, ◌≢◌, refl, ap, ◌∙◌, List, [], ◌∷◌, ◌++◌, Option, some}
use stockic_feed_api.Common.State.{State}
use stockic_feed_api.Go.Http.{Request}
use stockic_feed_api.Go.Process.{Ending, exited}
use stockic_feed_api.Go.Text.{Bytes, codes, str_eq, has_prefix}
use stockic_feed_api.Stores.Codec.{Codec}
use stockic_feed_api.Stores.Minio.{Minio, Clock}
use stockic_feed_api.Stores.Redis.{Redis, value}
use stockic_feed_api.FeedApi.FindArticle.{News}
use stockic_feed_api.FeedApi.Handlers.Base.{article, Writer, increment, json_response}
use stockic_feed_api.FeedApi.Handlers.Detail.{redis_key, detail_handler}
use stockic_feed_api.FeedApi.Models.{SummarizedArticle}
use stockic_feed_api.FeedCurator.Fetcher.{Fetch}
use stockic_feed_api.FeedCurator.Models as curator
use stockic_feed_api.FeedCurator.Models.{ApiResponse}
use stockic_feed_api.FeedCurator.Storage.{Payload}
use stockic_feed_api.FeedCurator.Summarizer.{summarize_country_categorized_headlines}
use stockic_feed_api.FeedCurator.Summarizer.Categories.{entry_of}
use stockic_feed_api.EndToEnd.{Agrees, IsStore}
use stockic_feed_api.EndToEnd.Headlines.{published, fetch_headlines, run_round, curate-stored}
use stockic_feed_api.Stores.Firestore.{Document, failed, Firestore}
use stockic_feed_api.Go.Mux.{handled, route}
use stockic_feed_api.FeedApi.Middleware.Access.{request_middleware-validated}
use stockic_feed_api.FeedApi.Models.{UserStatus}
use stockic_feed_api.FeedApi.Routes.{detail, setup_routes, handler_of, after_route, serve}
use stockic_feed_api.FeedApi.Routes.Chain.{route-chosen}
use stockic_feed_api.FeedApi.UserStatus.{validate_user_api_key}
use stockic_feed_api.FeedApi.UserStatus.Backends.{Backends}
use stockic_feed_api.FeedApi.UserStatus.Coherence.{Coherent, fetched as fetched_user}
use stockic_feed_api.FeedApi.UserStatus.Untouched.{IsApart, validate_user_api_key-apart}
use stockic_feed_api.Stores.Codec.{RoundTrip}
use stockic_feed_api.EndToEnd.Opened.{stored-opens}

-- A path below the route of details is routed to the detail handler.
route-detail :
    (news_id : Bytes) → route setup_routes (codes "/api/v2/detail/" ++ news_id) ≡ handled detail
unfolding has_prefix str_eq
route-detail news_id = route-chosen (codes "/api/v2/detail/" ++ news_id) refl

module _ {W : Type 0} (fresh_news : Redis W)
    (marshal : List (Bytes × curator.SummarizedResponse) → Option Bytes) (codec : Codec News)
    (agrees : Agrees marshal codec) (sha256 : Bytes → Bytes)
    (visit : List (Bytes × ApiResponse) → List (Bytes × ApiResponse))
    (visits_all : (key : Bytes) (m : List (Bytes × ApiResponse))
      → entry_of key (visit m) ≡ entry_of key m)
    (minio : Minio W) (clock : Clock W) (marshal_raw : Payload ApiResponse → Option Bytes)
    (marshal_archive : Payload curator.SummarizedResponse → Option Bytes)
    (unmarshal : Bytes → Option ApiResponse) (http_get : Bytes → State W Fetch) (api_key : Bytes)
    (decimal : ℕ → Bytes) (fuel : ℕ) (entries : W → Bytes → Option Bytes)
    (store : IsStore fresh_news entries) (world world_1 world' : W)
    (headlines : List (Bytes × ApiResponse)) (ending : Ending) (text : Bytes)
    (fetched : fetch_headlines fresh_news marshal codec agrees sha256 visit visits_all minio clock
        marshal_raw marshal_archive unmarshal http_get api_key decimal fuel world
      ≡ some (headlines, world_1))
    (encoded : marshal (summarize_country_categorized_headlines sha256 (visit headlines))
      ≡ some text)
    (ran : run_round fresh_news marshal codec agrees sha256 visit visits_all minio clock marshal_raw
        marshal_archive unmarshal http_get api_key decimal fuel world
      ≡ some (ending, world'))
    (goes_on : ending ≢ exited) (api_cache : Redis W) (db : Firestore W) (json : Codec UserStatus)
    (backends : Backends api_cache db) (round_trip : RoundTrip json) (redirect : Writer → Writer)
    (apart : IsApart api_cache db entries)
    (coherent : Coherent api_cache db json backends world') where
  open backends use {users}

  -- The world after the validation of a request that comes behind the round.
  abbrev pub validated : Request → W
  validated request =
      (validate_user_api_key api_cache db json (request.header (codes "X-API-Key")) world').1

  -- After a round of the curator that could encode the summaries of the headlines it fetched and
  -- did not end the process, the server of feed-api answers a GET request of a known user, when the
  -- user can be fetched, for the id of any published article of any country with an article of this
  -- id, and counts one read of it by this user, as long as the two entries of the news cache can be
  -- read after the validation, the stores of users leave these entries alone, and the cache of user
  -- statuses was coherent.
  pub serve-opens :
      (user : Document) (country : Bytes) (r : ApiResponse) (a : SummarizedArticle)
      (request : Request) (w : Writer) (reply d : Bytes) (world_2 world_3 : W)
      → entry_of country headlines ≡ some r
      → Memᴰ a (published sha256 r)
      → request.method ≡ codes "GET"
      → request.path ≡ codes "/api/v2/detail/" ++ a.stockic_id
      → users world' (request.header (codes "X-API-Key")) ≡ some user
      → request.header (codes "X-API-Key") ≢ []
      → fetched_user api_cache db json backends round_trip
          (request.header (codes "X-API-Key"))
          world'
        ≢ failed
      → fresh_news.get (codes "headlines") (validated request) ≡ (value reply, world_2)
      → fresh_news.get (codes "discover") world_2 ≡ (value d, world_3)
      → (b : SummarizedArticle) × (b.stockic_id ≡ a.stockic_id)
        × (serve api_cache fresh_news db json codec redirect request w world'
            ≡ some (
              json_response (article b) w,
              increment (redis_key a.stockic_id (request.header (codes "X-API-Key"))) ∷ [],
              world_3,
            ))
  unfolding serve after_route handler_of
  serve-opens user country r a request w reply d world_2 world_3 there m get path known sent reached
        read read_next =
      let stored =
        curate-stored fresh_news marshal codec agrees sha256 visit visits_all minio clock
          marshal_raw marshal_archive unmarshal http_get api_key decimal fuel entries store world
          world_1 world' headlines ending text fetched encoded ran goes_on in
      let kept =
        validate_user_api_key-apart api_cache db json entries apart
          (request.header (codes "X-API-Key")) world' in
      let (b, same, answer) =
        stored-opens fresh_news marshal codec agrees sha256 visit visits_all entries store headlines
          text encoded country r a request w reply d (validated request) world_2 world_3
          (ap (λ f. f (codes "headlines")) kept ∙ stored) there m get path read read_next in
      let routed : route setup_routes request.path ≡ handled detail =
        ap (route setup_routes) path ∙ route-detail a.stockic_id in
      (
        b,
        same,
        rw routed (
            request_middleware-validated api_cache db json backends round_trip
              (detail_handler fresh_news codec) request w world' coherent user known sent
              (λ missed. reached)
            ∙ answer),
      )
