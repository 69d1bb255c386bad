-- ===== src/FeedApi/Handlers/Lists.antt =====
-- `Ping`, `HeadlinesHandler`, `NewsFeedHandler` and `DiscoverHandler`.
pub mod Worlds
use stockic_feed_api.Common.{
  ℕ, not, List, [], ◌∷◌, Option, none, some, ltb, length, get_elem?, if◌then◌else◌, ◌>>=◌,
}
use stockic_feed_api.Go.Http.{http_error}
use stockic_feed_api.Go.Text.{Bytes, codes, str_eq}
use stockic_feed_api.Stores.Codec.{Codec}
use stockic_feed_api.Stores.Redis.{Redis}
use stockic_feed_api.FeedApi.FindArticle.{News}
use stockic_feed_api.FeedApi.Handlers.Base.{
  greet, page, Writer, Task, Handler, json_response, deliver_json_error, path_parts,
  positive_number, after_reply, finish,
}
use stockic_feed_api.FeedApi.Models.{SummarizedArticle, SummarizedResponse}
use stockic_feed_api.FeedApi.Paginate.{paginate_articles}

unfoldable pub lookup : Bytes → News → Option SummarizedResponse
lookup key [] = none
lookup key ((k, r) ∷ news) = if str_eq k key then some r else lookup key news

-- `news[key].Articles`; the zero value of a missing key has no articles
unfoldable pub articles_or_zero : Option SummarizedResponse → List SummarizedArticle
articles_or_zero none = []
articles_or_zero (some r) = r.articles

unfoldable pub articles_at : Bytes → News → List SummarizedArticle
unfolding articles_or_zero
articles_at key news = articles_or_zero (lookup key news)

unfoldable pub ping : {W : Type 0} → Handler W
ping request w world = finish (some (json_response (greet (codes "pong!")) w)) world

unfoldable pub page_response : Writer → List SummarizedArticle → ℕ → ℕ → Option Writer
page_response w articles n size = do
  response ← paginate_articles articles n size
  some (json_response (page response) w)

module _ {W : Type 0} (news_cache : Redis W) (codec : Codec News) where
  unfoldable pub read_news :
      Bytes → Bytes → Bytes → Writer → (News → Option Writer) → W → Option (Writer × List Task × W)
  read_news key fetch_error parse_error w k world =
      let (reply, world') = news_cache.get key world in
      finish (after_reply codec fetch_error parse_error w k reply) world'

  unfoldable pub headlines_page : Writer → ℕ → W → Option (Writer × List Task × W)
  headlines_page w page_size =
      read_news (codes "headlines") (codes "Failed to fetch headlines")
        (codes "Failed to parse headlines data") w
        (λ headlines. page_response w (articles_at (codes "us") headlines) 1 page_size)

  unfoldable pub headlines_size : Writer → Option ℕ → W → Option (Writer × List Task × W)
  headlines_size w none world =
      finish (some (deliver_json_error (codes "Invalid page number") 400 w)) world
  headlines_size w (some page_size) world = headlines_page w page_size world

  -- `pathParts[4]` would panic out of range; the test of the length is in front of it
  unfoldable pub headlines_parts : Writer → List Bytes → W → Option (Writer × List Task × W)
  unfolding headlines_size
  headlines_parts w parts world =
      if ltb (length parts) 5
      then finish (some (deliver_json_error (codes "Invalid URL") 400 w)) world
      else (do size ← get_elem? parts 4; headlines_size w (positive_number size) world)

  unfoldable pub headlines_handler : Handler W
  unfolding headlines_parts
  headlines_handler request w world =
      if not (str_eq request.method (codes "GET"))
      then finish (some (http_error (codes "Method not allowed") 405 w)) world
      else headlines_parts w (path_parts request) world

  unfoldable pub news_feed_page : Writer → ℕ → ℕ → W → Option (Writer × List Task × W)
  news_feed_page w page_size n =
      read_news (codes "headlines") (codes "Failed to fetch news")
        (codes "Failed to parse news data") w
        (λ headlines. page_response w (articles_at (codes "us") headlines) n page_size)

  -- the two numbers of the path, of which the page is looked at last
  news_feed_numbers : Writer → Option ℕ → Option ℕ → W → Option (Writer × List Task × W)
  news_feed_numbers w (some page_size) (some n) world = news_feed_page w page_size n world
  news_feed_numbers w _ _ world =
      finish (some (deliver_json_error (codes "Invalid page number") 400 w)) world

  news_feed_parts : Writer → List Bytes → W → Option (Writer × List Task × W)
  unfolding news_feed_numbers
  news_feed_parts w parts world =
      if ltb (length parts) 6
      then finish (some (deliver_json_error (codes "Invalid URL") 400 w)) world
      else (do
        size ← get_elem? parts 4
        n ← get_elem? parts 5
        news_feed_numbers w (positive_number size) (positive_number n) world)

  unfoldable pub news_feed_handler : Handler W
  unfolding news_feed_parts
  news_feed_handler request w world =
      if not (str_eq request.method (codes "GET"))
      then finish (some (http_error (codes "Method not allowed") 405 w)) world
      else news_feed_parts w (path_parts request) world

  category_page : Writer → ℕ → ℕ → Option SummarizedResponse → Option Writer
  category_page w page_size n none = some (http_error (codes "Category not found") 404 w)
  category_page w page_size n (some news) = page_response w news.articles n page_size

  unfoldable pub discover_page : Writer → Bytes → ℕ → ℕ → W → Option (Writer × List Task × W)
  unfolding category_page
  discover_page w category page_size n =
      read_news (codes "discover") (codes "Failed to fetch category news")
        (codes "Failed to parse category news data") w
        (λ news. category_page w page_size n (lookup category news))

  discover_numbers : Writer → Bytes → Option ℕ → Option ℕ → W → Option (Writer × List Task × W)
  discover_numbers w category none n world =
      finish (some (deliver_json_error (codes "Invalid page size number") 400 w)) world
  discover_numbers w category (some page_size) none world =
      finish (some (deliver_json_error (codes "Invalid page number") 400 w)) world
  discover_numbers w category (some page_size) (some n) world =
      discover_page w category page_size n world

  discover_category : Writer → Bytes → Option ℕ → Option ℕ → W → Option (Writer × List Task × W)
  unfolding discover_numbers
  discover_category w category size n world =
      if str_eq category []
      then finish (some (deliver_json_error (codes "Category is empty") 400 w)) world
      else discover_numbers w category size n world

  discover_parts : Writer → List Bytes → W → Option (Writer × List Task × W)
  unfolding discover_category
  discover_parts w parts world =
      if ltb (length parts) 7
      then finish (some (deliver_json_error (codes "Less than 8 parts") 400 w)) world
      else (do
        category ← get_elem? parts 4
        size ← get_elem? parts 5
        n ← get_elem? parts 6
        discover_category w category (positive_number size) (positive_number n) world)

  unfoldable pub discover_handler : Handler W
  unfolding discover_parts
  discover_handler request w world =
      if not (str_eq request.method (codes "GET"))
      then finish (some (http_error (codes "Method not allowed") 405 w)) world
      else discover_parts w (path_parts request) world
