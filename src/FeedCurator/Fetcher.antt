-- ===== src/FeedCurator/Fetcher.antt =====
-- feed-curator/fetcher/fetcher.go. The pauses between requests and log messages are left out.
pub mod Paging
pub mod Outage
use stockic_feed_api.Common.{
  ℕ, zero, suc, ◌+◌, Bool, true, false, not, List, [], ◌∷◌, ◌++◌, Option, none, some, length, ◌==◌,
  if◌then◌else◌,
}
use stockic_feed_api.Common.State.{State}
use stockic_feed_api.Go.Int
use stockic_feed_api.Go.Text.{Bytes, codes, str_eq}
use stockic_feed_api.FeedCurator.Models.{Article, ApiResponse}

-- What `http.Get` and `io.ReadAll` bring: a status code and a body, or an error of either.
pub data Fetch : Type 0 where
  no_response : Fetch
  response : ℕ → Option Bytes → Fetch

-- `none` is an error; the response that the code returns beside an error is never looked at.
checked : Option ApiResponse → Option ApiResponse
checked none = none
checked (some r) = if str_eq r.status (codes "ok") then some r else none

module _ (unmarshal : Bytes → Option ApiResponse) where
  parsed : Option Bytes → Option ApiResponse
  unfolding checked
  parsed none = none
  parsed (some body) = checked (unmarshal body)

  read_fetch : Fetch → Option ApiResponse
  unfolding parsed
  read_fetch no_response = none
  read_fetch (response code body) = if code == 200 then parsed body else none

  unfoldable pub news_api_caller :
      {W : Type 0} → (Bytes → State W Fetch) → Bytes → State W (Option ApiResponse)
  unfolding read_fetch
  news_api_caller http_get url world =
      let (f, world') = http_get url world in (read_fetch f, world')

-- `key` is the value of NEWSAPI_API_KEY.
unfoldable pub headline_url : Bytes → Bytes → Bytes → Bytes → Bytes
headline_url key country page page_size =
    codes "https://newsapi.org/v2/top-headlines?country="
    ++ (country
        ++ (codes "&page="
            ++ (page ++ (codes "&pageSize=" ++ (page_size ++ (codes "&apiKey=" ++ key))))))

unfoldable pub everything_url :
    Bytes → Bytes → Bytes → Bytes → Bytes → Bytes → Bytes → Bytes → Bytes → Bytes
everything_url key q search_in language sort_by from to page page_size =
    codes "https://newsapi.org/v2/everything?q="
    ++ (q
        ++ (codes "&searchIn="
            ++ (search_in
                ++ (codes "&language="
                    ++ (language
                        ++ (codes "&sortBy="
                            ++ (sort_by
                                ++ (codes "&from="
                                    ++ (from
                                        ++ (codes "&to="
                                            ++ (to
                                                ++ (codes "&page="
                                                    ++ (page
                                                        ++ (codes "&pageSize="
                                                            ++ (page_size
                                                            ++ (codes "&apiKey="
                                                            ++ key))))))))))))))))

module _ {W : Type 0} (call : ℕ → State W (Option ApiResponse)) where
  -- The loop over pages: `none` is a loop that has not ended within the fuel.
  unfoldable pub fetch_pages : ℕ → ℕ → List Article → W → Option (List Article × W)
  fetch_pages zero page articles world = none
  fetch_pages (suc fuel) page articles world = elim (call page world).0 [
    | none ↦ some (articles, (call page world).1)
    | some r ↦
        let articles' = articles ++ r.articles in
        let rest = fetch_pages fuel (page + 1) articles' (call page world).1 in
        if not (Int.less (length articles') r.total_results)
        then some (articles', (call page world).1)
        else rest
  ]

abbrev pub fetched_response : List Article → ApiResponse
fetched_response articles = record {
  status = codes "ok";
  total_results = length articles;
  articles = articles;
}

-- The loop over countries or categories; `call key` asks for the pages of one of them.
module _ {W : Type 0} (call : Bytes → ℕ → State W (Option ApiResponse)) (fuel : ℕ) where
  unfoldable pub fetch_each : List Bytes → W → Option (List (Bytes × ApiResponse) × W)
  fetch_each [] world = some ([], world)
  fetch_each (key ∷ keys) world = elim (fetch_pages (call key) fuel 1 [] world) [
    | none ↦ none
    | some r ↦ elim (fetch_each keys r.1) [
      | none ↦ none
      | some s ↦ some ((key, fetched_response r.0) ∷ s.0, s.1)
    ]
  ]

abbrev pub discover_tags : List Bytes
discover_tags =
    codes "gainers"
    ∷ codes "losers"
    ∷ codes "software"
    ∷ codes "finance"
    ∷ codes "stocks"
    ∷ codes "bonds"
    ∷ codes "corporate"
    ∷ codes "banking"
    ∷ codes "technology"
    ∷ codes "tax"
    ∷ codes "geopolitics"
    ∷ []

module _ {W : Type 0} (unmarshal : Bytes → Option ApiResponse) (http_get : Bytes → State W Fetch)
    (api_key : Bytes) (decimal : ℕ → Bytes) (fuel : ℕ) where
  unfoldable pub news_api_headline_caller : Bytes → Bytes → ℕ → State W (Option ApiResponse)
  unfolding news_api_caller headline_url
  news_api_headline_caller page_size country page =
      news_api_caller unmarshal http_get (headline_url api_key country (decimal page) page_size)

  unfoldable pub fetch_headlines_by_country :
      List Bytes → Bytes → W → Option (List (Bytes × ApiResponse) × W)
  fetch_headlines_by_country countries page_size =
      fetch_each (news_api_headline_caller page_size) fuel countries

  unfoldable pub news_api_everything_caller :
      Bytes → Bytes → Bytes → Bytes → Bytes → ℕ → State W (Option ApiResponse)
  unfolding news_api_caller everything_url
  news_api_everything_caller language sort_by from to category page =
      news_api_caller unmarshal http_get
        (everything_url api_key category [] language sort_by from to (decimal page) (codes "20"))

  unfoldable pub news_discovery_by_category :
      Bytes → Bytes → Bytes → Bytes → W → Option (List (Bytes × ApiResponse) × W)
  news_discovery_by_category language sort_by from to =
      fetch_each (news_api_everything_caller language sort_by from to) fuel discover_tags
