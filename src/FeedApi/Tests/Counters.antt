-- ===== src/FeedApi/Tests/Counters.antt =====
-- A detail request, its counter, and the synchronisation of the log.
use stockic_feed_api.Common.{◌≡◌, refl, [], ◌∷◌, some, arith}
use stockic_feed_api.Go.Http.{Request, fresh}
use stockic_feed_api.Go.Text.{codes, str_eq, split, trim_prefix}
use stockic_feed_api.Stores.Codec.{Codec}
use stockic_feed_api.FeedApi.FindArticle.{News, find_article_by_id}
use stockic_feed_api.FeedApi.Handlers.Base.{Writer, article, increment, json_response, path_parts}
use stockic_feed_api.FeedApi.Handlers.Counted.{IsCounted, detail_handler-IsCounted}
use stockic_feed_api.FeedApi.Handlers.Detail.{redis_key, detail_handler, detail_of}
use stockic_feed_api.FeedApi.LogSync.{parse_key}
use stockic_feed_api.FeedApi.Models.{SummarizedArticle}
use stockic_feed_api.FeedApi.Tests.Stores.{Memory, memory}

abbrev shown : SummarizedArticle
shown = record {
  stockic_id = codes "7f";
  source = [];
  author = [];
  title = [];
  url = [];
  url_to_image = [];
  published_at = [];
  summarized_content = [];
  companies_tags = [];
  news_highlights = [];
}

abbrev test_news : News
test_news =
    (codes "us", record { status = codes "ok"; total_results = 1; articles = shown ∷ [] }) ∷ []

abbrev test_codec : Codec News
test_codec = record { marshal = λ n. some (codes "N"); unmarshal = λ s. some test_news }

abbrev stored : Memory
stored = (codes "headlines", codes "N") ∷ (codes "discover", codes "N") ∷ []

abbrev detail_request : Request
detail_request = record {
  method = codes "GET";
  path = codes "/api/v2/detail/7f";
  header = λ name. codes "u1";
  query = λ name. [];
  remote_addr = [];
  body = [];
}

abbrev w0 : Writer
w0 = fresh

detail_test :
    detail_handler memory test_codec detail_request w0 stored
    ≡ some (
      json_response (article shown) w0,
      increment (redis_key (codes "7f") (codes "u1")) ∷ [],
      stored,
    )
unfolding detail_handler detail_of path_parts split str_eq find_article_by_id
detail_test = refl

detail_handler-IsCounted_example :
    IsCounted memory test_codec w0 detail_request
      (omega arith)
      (json_response (article shown) w0)
      (redis_key (codes "7f") (codes "u1"))
detail_handler-IsCounted_example =
    detail_handler-IsCounted memory test_codec w0 detail_request (omega arith) stored
      (json_response (article shown) w0) (redis_key (codes "7f") (codes "u1")) [] stored detail_test

-- A key whose API key holds a slash is cut off there.
cut_key : parse_key (redis_key (codes "7f") (codes "a/b")) ≡ some (codes "7f", codes "a")
unfolding parse_key redis_key split trim_prefix
cut_key = refl
