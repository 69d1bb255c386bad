-- ===== src/EndToEnd/Tests/Round.antt =====
-- A round of the curator on a news service that has the same two articles everywhere, and requests
-- to feed-api after it.
use stockic_feed_api.Common.{
  ◌≡◌, refl, true, false, List, [], ◌∷◌, ◌++◌, Option, none, some, take, arith, if◌then◌else◌,
}
use stockic_feed_api.Common.State.{State}
use stockic_feed_api.Go.Atoi.{atoi}
use stockic_feed_api.Go.Http.{Request, fresh}
use stockic_feed_api.Go.Int.{less}
use stockic_feed_api.Go.Process.{Ending, returned}
use stockic_feed_api.Go.Text.{Bytes, codes, split, str_eq}
use stockic_feed_api.Go.Text.Laws.{str_eq_refl}
use stockic_feed_api.Stores.Minio.{Minio, Clock}
use stockic_feed_api.Stores.Redis.{Redis, Reply, value, missing}
use stockic_feed_api.FeedApi.Handlers.Base.{Writer, path_parts, positive_number}
use stockic_feed_api.FeedApi.Handlers.Lists.{headlines_handler}
use stockic_feed_api.FeedApi.Handlers.Served.{Serves}
use stockic_feed_api.FeedApi.Models.{SummarizedArticle}
use stockic_feed_api.FeedCurator.Fetcher.{
  Fetch, response, news_api_caller, fetch_pages, fetch_each, fetch_headlines_by_country,
  news_discovery_by_category, news_api_headline_caller, news_api_everything_caller,
}
use stockic_feed_api.FeedCurator.Round.{
  store_both, publish, after_discovery, after_headlines, curate,
}
use stockic_feed_api.FeedCurator.Models.{Article, ApiResponse}
use stockic_feed_api.FeedCurator.Storage.{
  put_archive, archive, upload_news_api_response_data_to_minio,
  upload_news_api_summarized_data_to_minio, set_news, store_summarized_redis,
}
use stockic_feed_api.FeedCurator.Summarizer.{
  headline_image, unidentified, identified, summarize_articles,
  summarize_country_categorized_headlines,
}
use stockic_feed_api.FeedCurator.Summarizer.Categories.{entry_of}
use stockic_feed_api.EndToEnd.{IsStore, read_article}
use stockic_feed_api.EndToEnd.Headlines.{published, curate-Serves, run_round, fetch_headlines}
use stockic_feed_api.EndToEnd.Tests.Wire.{
  test_marshal, test_codec, test_marshal-Agrees, put_all, get_all, get_list,
}

abbrev pub World : Type 0
World = List (Bytes × Bytes)

abbrev pub at : World → Bytes → Option Bytes
at [] key = none
at ((k, v) ∷ m) key = if str_eq k key then some v else at m key

abbrev pub reply_of : Option Bytes → Reply
reply_of none = missing
reply_of (some v) = value v

abbrev pub cache : Redis World
cache = record {
  ping = λ m. (true, m);
  get = λ k m. (reply_of (at m k), m);
  set = λ k v ttl m. (true, (k, v) ∷ m);
  exists = λ k m. (0, m);
  incr = λ k m. (true, m);
  keys = λ p m. (some [], m);
  get_del = λ k m. (reply_of (at m k), m);
}

reply_of-value : (o : Option Bytes) (x : Bytes) → reply_of o ≡ value x → o ≡ some x
reply_of-value none x e = cc
reply_of-value (some v) x e = cc

pub cache-IsStore : IsStore cache at
cache-IsStore = record {
  set_stores = λ k v w e. rw str_eq_refl refl;
  set_others = λ j v k w differs. rw differs refl;
  get_keeps = λ k w. refl;
  get_reads = λ k w x e. reply_of-value (at w k) x e;
}

abbrev pub no_archive : Minio World
no_archive = record {
  put_object = λ b n d w. (false, w);
  bucket_exists = λ b w. ((true, true), w);
  make_bucket = λ b w. (true, w);
}

abbrev pub clock : Clock World
clock = record {
  now = λ w. (0, w);
  rfc3339 = λ t. [];
  file_stamp = λ t. [];
  log_stamp = λ t. [];
  month = λ t. [];
  local_rfc3339 = λ t. [];
  local_file_stamp = λ t. [];
  today = λ t. [];
  yesterday = λ t. [];
}

abbrev pub story : Article
story = record {
  source = record { id = []; name = codes "Gazette" };
  author = codes "A";
  title = codes "T";
  description = [];
  url = codes "u";
  url_to_image = codes "i";
  published_at = codes "p";
  content = codes "c";
}

abbrev pub one_story : ApiResponse
one_story = record { status = codes "ok"; total_results = 1; articles = story ∷ [] }

abbrev pub http_get : Bytes → State World Fetch
http_get url w = (response 200 (some []), w)

abbrev pub unmarshal : Bytes → Option ApiResponse
unmarshal s = some one_story

abbrev pub sha256 : Bytes → Bytes
sha256 s = 171 ∷ []

-- The headlines of the round, and the world after it.
abbrev pub fetched_of : Option (List (Bytes × ApiResponse) × World) → List (Bytes × ApiResponse)
fetched_of none = []
fetched_of (some r) = r.0

abbrev pub world_of : Option (Ending × World) → World
world_of none = []
world_of (some r) = r.1

abbrev pub text_of : Option Bytes → Bytes
text_of none = []
text_of (some s) = s

abbrev pub headlines : List (Bytes × ApiResponse)
headlines = fetched_of (
    fetch_headlines cache test_marshal test_codec test_marshal-Agrees sha256 (λ m. m) (λ k m. refl)
      no_archive clock (λ p. none) (λ p. none) unmarshal http_get [] (λ n. []) 1 [])

abbrev pub after : World
after = world_of (
    run_round cache test_marshal test_codec test_marshal-Agrees sha256 (λ m. m) (λ k m. refl)
      no_archive clock (λ p. none) (λ p. none) unmarshal http_get [] (λ n. []) 1 [])

abbrev pub text : Bytes
text = text_of (test_marshal (summarize_country_categorized_headlines sha256 headlines))

abbrev pub request : Bytes → Request
request path = record {
  method = codes "GET";
  path = path;
  header = λ name. codes "u1";
  query = λ name. [];
  remote_addr = [];
  body = [];
}

abbrev pub shown : List SummarizedArticle
shown = published sha256 one_story

abbrev pub w0 : Writer
w0 = fresh

curate-Serves_example :
    Serves
      (headlines_handler cache test_codec (request (codes "/api/v2/headlines/1")) w0 after)
      w0
      shown
      (take 1 shown)
      after
unfolding curate after_headlines after_discovery publish store_both fetch_headlines_by_country
    news_discovery_by_category news_api_headline_caller news_api_everything_caller fetch_each
    fetch_pages news_api_caller str_eq upload_news_api_response_data_to_minio
    upload_news_api_summarized_data_to_minio archive put_archive store_summarized_redis set_news
    entry_of path_parts split positive_number atoi put_all get_all get_list less summarize_articles
curate-Serves_example =
    curate-Serves cache test_marshal test_codec test_marshal-Agrees sha256 (λ m. m) (λ k m. refl)
      no_archive clock (λ p. none) (λ p. none) unmarshal http_get [] (λ n. []) 1 at cache-IsStore []
      [] after headlines (returned true) text refl refl refl (λ e. cc) one_story
      (request (codes "/api/v2/headlines/1")) w0 text (codes "1") 1 refl refl refl refl refl
      (omega arith)

abbrev pub opened : Bytes → Request
opened id = request (codes "/api/v2/detail/" ++ id)

abbrev pub story_read : SummarizedArticle
story_read = read_article (identified sha256 headline_image (unidentified headline_image story))
