-- ===== src/FeedCurator/Tests/Rounds.antt =====
-- A round on a service that has one article for every country and every tag, on the first page.
use stockic_feed_api.Common.{
  ℕ, zero, suc, ◌*◌, ◌≡◌, refl, List, [], ◌∷◌, ◌++◌, true, false, Option, none, some, arith, take,
  drop, if◌then◌else◌,
}
use stockic_feed_api.Common.State.{State}
use stockic_feed_api.Go.Text.{Bytes, codes, str_eq}
use stockic_feed_api.Stores.Minio.{Minio, Clock}
use stockic_feed_api.Stores.Redis.{Redis, missing}
use stockic_feed_api.FeedCurator.Fetcher.{
  Fetch, response, discover_tags, news_api_caller, headline_url, everything_url,
  news_api_headline_caller, news_api_everything_caller,
}
use stockic_feed_api.FeedCurator.Fetcher.Paging.{ServesPages, fetched_all}
use stockic_feed_api.FeedCurator.Models.{Article, ApiResponse}
use stockic_feed_api.FeedCurator.Round.{all_countries, publish, curate}
use stockic_feed_api.FeedCurator.Round.Ends.{curate-publishes}
use stockic_feed_api.FeedCurator.Tests.Summaries.{article_with}

abbrev page_end : Bytes
page_end = codes "&pageSize=20&apiKey="

abbrev or_else : Option ℕ → Option ℕ → Option ℕ
or_else none o = o
or_else (some c) o = some c

-- The page number of an address: one code, in front of `page_end`.
unfoldable page_number : Bytes → Option ℕ
page_number [] = none
page_number (c ∷ s) =
    let rest = page_number s in or_else rest (if str_eq s page_end then some c else none)

page_number_behind : (p s : Bytes) (c : ℕ) → page_number s ≡ some c → page_number (p ++ s) ≡ some c
unfolding page_number
page_number_behind [] s c e = e
page_number_behind (x ∷ p) s c e = rw (page_number_behind p s c e) refl

page_number_end : (n : ℕ) → page_number (codes "&page=" ++ (n ∷ page_end)) ≡ some n
unfolding page_number str_eq
page_number_end n = page_number_behind (codes "&page=") (n ∷ page_end) n refl

abbrev stories : List Article
stories = article_with (codes "A") (codes "a.png") ∷ []

on_page : Option ℕ → List Article
on_page none = []
on_page (some n) = take 20 (drop (n * 20) stories)

abbrev answer_to : Option ℕ → ApiResponse
unfolding on_page
answer_to o = record { status = codes "ok"; total_results = 1; articles = on_page o }

-- Pages count from 1; the code of a page number is one less.
abbrev decimal : ℕ → Bytes
decimal zero = []
decimal (suc n) = n ∷ []

abbrev unmarshal : Bytes → Option ApiResponse
unmarshal body = some (answer_to (page_number body))

abbrev http_get : Bytes → State ℕ Fetch
http_get url w = (response 200 (some url), suc w)

headline_number :
    (country : Bytes) (n : ℕ)
    → page_number (headline_url [] country (decimal (suc n)) (codes "20")) ≡ some n
unfolding headline_url
headline_number country n =
    page_number_behind (codes "https://newsapi.org/v2/top-headlines?country=") _ n
      (page_number_behind country _ n (page_number_end n))

everything_number :
    (from to tag : Bytes) (n : ℕ)
    → page_number (
        everything_url [] tag []
          (codes "en")
          (codes "publishedAt")
          from
          to
          (decimal (suc n))
          (codes "20"))
      ≡ some n
unfolding everything_url
everything_number from to tag n =
    page_number_behind (codes "https://newsapi.org/v2/everything?q=") _ n (
      page_number_behind tag _ n (
        page_number_behind (codes "&searchIn=&language=en&sortBy=publishedAt&from=") _ n (
          page_number_behind from _ n (
            page_number_behind (codes "&to=") _ n
              (page_number_behind to _ n (page_number_end n))))))

headlines-ServesPages :
    (country : Bytes)
    → ServesPages
        (news_api_headline_caller unmarshal http_get [] decimal 2 (codes "20") country)
        stories
        20
unfolding news_api_headline_caller news_api_caller on_page str_eq
headlines-ServesPages country = record {
  answer = λ n w. answer_to (some n);
  answers = λ n w. rw (headline_number country n) refl;
  total = λ n w. refl;
  page = λ n w. refl;
}

topics-ServesPages :
    (from to tag : Bytes)
    → ServesPages
        (news_api_everything_caller unmarshal http_get [] decimal 2
          (codes "en")
          (codes "publishedAt")
          from
          to
          tag)
        stories
        20
unfolding news_api_everything_caller news_api_caller on_page str_eq
topics-ServesPages from to tag = record {
  answer = λ n w. answer_to (some n);
  answers = λ n w. rw (everything_number from to tag n) refl;
  total = λ n w. refl;
  page = λ n w. refl;
}

abbrev no_minio : Minio ℕ
no_minio = record {
  put_object = λ b n d w. (false, w);
  bucket_exists = λ b w. ((true, true), w);
  make_bucket = λ b w. (true, w);
}

-- The time is the number of requests so far.
abbrev clock : Clock ℕ
clock = record {
  now = λ w. (w, w);
  rfc3339 = λ t. [];
  file_stamp = λ t. [];
  log_stamp = λ t. [];
  month = λ t. [];
  local_rfc3339 = λ t. [];
  local_file_stamp = λ t. [];
  today = λ t. codes "2025-01-02";
  yesterday = λ t. codes "2025-01-01";
}

abbrev cache : Redis ℕ
cache = record {
  ping = λ w. (true, w);
  get = λ k w. (missing, w);
  set = λ k v ttl w. (true, w);
  exists = λ k w. (0, w);
  incr = λ k w. (true, w);
  keys = λ p w. (some [], w);
  get_del = λ k w. (missing, w);
}

curate-publishes_example :
    (world' : ℕ) × (curate no_minio clock
        (λ p. none)
        (λ p. none)
        (λ s. s)
        (λ m. m)
        cache
        (λ m. some [])
        unmarshal
        http_get
        []
        decimal
        2
        0
      ≡ some (
          publish no_minio clock
            (λ p. none)
            (λ p. none)
            (λ s. s)
            (λ m. m)
            cache
            (λ m. some [])
            (fetched_all (λ country. stories) all_countries)
            (fetched_all (λ tag. stories) discover_tags)
            world'))
curate-publishes_example =
    curate-publishes no_minio clock (λ p. none) (λ p. none) (λ s. s) (λ m. m) cache (λ m. some [])
      unmarshal http_get [] decimal 2 (λ country. stories) (λ tag. stories) headlines-ServesPages
      topics-ServesPages (λ country. omega arith) (λ tag. omega arith) (λ country. omega arith)
      (λ tag. omega arith) 0
