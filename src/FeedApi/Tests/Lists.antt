-- ===== src/FeedApi/Tests/Lists.antt =====
-- The handlers of lists on a small news cache.
use mathlib.Core.Option.{some-injective}
use stockic_feed_api.Common.{
  ◌-◌, ◌*◌, ◌≡◌, refl, sym, List, [], ◌∷◌, Option, none, some, arith, take, drop,
}
use stockic_feed_api.Go.Atoi.{atoi}
use stockic_feed_api.Go.Http.{Request, fresh}
use stockic_feed_api.Go.Int
use stockic_feed_api.Go.Text.{Bytes, codes, split, str_eq}
use stockic_feed_api.Stores.Codec.{Codec}
use stockic_feed_api.FeedApi.FindArticle.{News, find_article_by_id}
use stockic_feed_api.FeedApi.FindArticle.Search.{Answers, find_article_by_id-Answers}
use stockic_feed_api.FeedApi.Handlers.Base.{Writer, path_parts, positive_number}
use stockic_feed_api.FeedApi.Handlers.Lists.{
  lookup, articles_at, headlines_handler, news_feed_handler, discover_handler,
}
use stockic_feed_api.FeedApi.Handlers.Served.{
  Serves, news_feed_handler-Serves, news_feed_handler-panics, discover_handler-Serves,
}
use stockic_feed_api.FeedApi.Handlers.Total.{Fits, IsAnswered, headlines_handler-IsAnswered}
use stockic_feed_api.FeedApi.Models.{SummarizedArticle, SummarizedResponse}
use stockic_feed_api.FeedApi.Paginate.{page_of, paginate_articles}
use stockic_feed_api.FeedApi.Paginate.Coverage.{first_pages, first_pages-all}
use stockic_feed_api.FeedApi.Paginate.Pages.{paginate_articles_lem, paginate_articles_overflow}
use stockic_feed_api.FeedApi.Tests.Stores.{Memory, memory}

abbrev pub article_named : Bytes → SummarizedArticle
article_named id = record {
  stockic_id = id;
  source = [];
  author = [];
  title = [];
  url = [];
  url_to_image = [];
  published_at = [];
  summarized_content = [];
  companies_tags = [];
  news_highlights = [];
}

abbrev pub three : List SummarizedArticle
three = article_named (codes "a") ∷ article_named (codes "b") ∷ article_named (codes "c") ∷ []

abbrev pub response_of : List SummarizedArticle → SummarizedResponse
response_of articles = record { status = codes "ok"; total_results = 3; articles = articles }

abbrev pub test_news : News
test_news = (codes "us", response_of three) ∷ []

abbrev pub decode_test : Bytes → Option News
decode_test [] = none
decode_test (c ∷ s) = some test_news

abbrev pub test_codec : Codec News
test_codec = record { marshal = λ n. some (codes "N"); unmarshal = decode_test }

abbrev stored : Memory
stored = (codes "headlines", codes "N") ∷ (codes "discover", codes "N") ∷ []

abbrev get_path : Bytes → Request
get_path path = record {
  method = codes "GET";
  path = path;
  header = λ name. [];
  query = λ name. [];
  remote_addr = [];
  body = [];
}

abbrev w0 : Writer
w0 = fresh

paginate_articles_lem_example :
    paginate_articles three 2 2 ≡ some (page_of three (take 2 (drop ((2 - 1) * 2) three)))
paginate_articles_lem_example =
    paginate_articles_lem three (omega arith) 2 2 (omega arith) (omega arith) (omega arith)

paginate_articles_overflow_example : paginate_articles three 0x2000_0000_0000_0001 4 ≡ none
paginate_articles_overflow_example =
    paginate_articles_overflow three (omega arith) 0x2000_0000_0000_0001 4 (omega arith)
      (omega arith) (omega arith) (omega arith)

first_pages-all_example : first_pages three 2 2 ≡ some three
first_pages-all_example =
    first_pages-all three (omega arith) 2 (omega arith) 2 (omega arith) (omega arith)

number_test : (positive_number (codes "2") ≡ some 2) × (positive_number (codes "0") ≡ none)
unfolding positive_number atoi Int.less
number_test = (refl, refl)

huge_test : positive_number (codes "2305843009213693953") ≡ some 0x2000_0000_0000_0001
unfolding positive_number atoi Int.less
huge_test = refl

four_test : positive_number (codes "4") ≡ some 4
unfolding positive_number atoi Int.less
four_test = refl

abbrev feed : Request
feed = get_path (codes "/api/v2/newsfeed/4/2305843009213693953")

abbrev second : Request
second = get_path (codes "/api/v2/newsfeed/2/2")

abbrev discovery : Request
discovery = get_path (codes "/api/v2/discover/us/2/2")

parts_test :
    (path_parts second
      ≡ [] ∷ codes "api" ∷ codes "v2" ∷ codes "newsfeed" ∷ codes "2" ∷ codes "2" ∷ [])
    × (path_parts feed
        ≡ []
          ∷ codes "api"
          ∷ codes "v2"
          ∷ codes "newsfeed"
          ∷ codes "4"
          ∷ codes "2305843009213693953"
          ∷ [])
    × (path_parts discovery
        ≡ []
          ∷ codes "api"
          ∷ codes "v2"
          ∷ codes "discover"
          ∷ codes "us"
          ∷ codes "2"
          ∷ codes "2"
          ∷ [])
unfolding path_parts split
parts_test = (refl, refl, refl)

us_test : articles_at (codes "us") test_news ≡ three
unfolding articles_at lookup str_eq
us_test = refl

news_feed_handler-Serves_example :
    Serves
      (news_feed_handler memory test_codec second w0 stored)
      w0
      (articles_at (codes "us") test_news)
      (take 2 (drop ((2 - 1) * 2) (articles_at (codes "us") test_news)))
      stored
unfolding str_eq path_parts split articles_at lookup
news_feed_handler-Serves_example =
    news_feed_handler-Serves memory test_codec second w0 stored refl (codes "N") test_news refl refl
      (omega arith) (codes "2") (codes "2") 2 2 refl refl number_test.0 number_test.0 (omega arith)

news_feed_handler-panics_example : news_feed_handler memory test_codec feed w0 stored ≡ none
unfolding str_eq path_parts split articles_at lookup
news_feed_handler-panics_example =
    news_feed_handler-panics memory test_codec feed w0 stored refl (codes "N") test_news refl refl
      (omega arith) (codes "4") (codes "2305843009213693953") 4 0x2000_0000_0000_0001 refl refl
      four_test huge_test (omega arith)

discover_handler-Serves_example :
    Serves
      (discover_handler memory test_codec discovery w0 stored)
      w0
      three
      (take 2 (drop ((2 - 1) * 2) three))
      stored
unfolding str_eq path_parts split lookup
discover_handler-Serves_example =
    discover_handler-Serves memory test_codec discovery w0 stored refl (codes "N") test_news refl
      refl (codes "us") (codes "2") (codes "2") 2 2 (cc) refl refl refl number_test.0 number_test.0
      (response_of three) refl (omega arith) (omega arith)

test-Fits : Fits test_codec
unfolding articles_at lookup str_eq
test-Fits [] news e = cc
test-Fits (c ∷ s) news e =
    let same : news ≡ test_news = some-injective _ _ (sym e) in rw same (omega arith)

headlines_handler-IsAnswered_example :
    IsAnswered (headlines_handler memory test_codec second w0 stored)
headlines_handler-IsAnswered_example =
    headlines_handler-IsAnswered memory test_codec test-Fits w0 stored second

find_article_by_id-Answers_example :
    Answers (codes "b") three (find_article_by_id test_codec (codes "b") (codes "N") [])
find_article_by_id-Answers_example =
    find_article_by_id-Answers (codes "b") test_codec (codes "N") []
