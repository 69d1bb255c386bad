-- ===== src/FeedApi/Handlers/Served.antt =====
-- What the handlers of lists answer to a request that they accept.
use stockic_feed_api.Common.{
  ℕ, ◌-◌, ◌*◌, ◌%◌, ◌≤◌, ◌<◌, ◌≡◌, ◌≢◌, ◌∙◌, ap, true, List, [], Option, none, some, arith, length,
  take, drop, get_elem?,
}
use stockic_feed_api.Go.Http.{Request, http_error}
use stockic_feed_api.Go.Int.{sign_bit, modulus}
use stockic_feed_api.Go.Text.{Bytes, codes, str_eq}
use stockic_feed_api.Go.Text.Laws.{str_eq_refl, not-str_eq}
use stockic_feed_api.Stores.Codec.{Codec}
use stockic_feed_api.Stores.Redis.{Redis, value}
use stockic_feed_api.FeedApi.FindArticle.{News}
use stockic_feed_api.FeedApi.Handlers.Base.{
  page, Writer, Task, json_response, path_parts, positive_number, after_reply, finish,
}
use stockic_feed_api.FeedApi.Handlers.Lists.{
  lookup, articles_at, page_response, read_news, headlines_page, headlines_handler, news_feed_page,
  news_feed_handler, discover_page, discover_handler,
}
use stockic_feed_api.FeedApi.Handlers.Numbers.{positive_number_bounds, guard_passes}
use stockic_feed_api.FeedApi.Models.{SummarizedArticle, SummarizedResponse}
use stockic_feed_api.FeedApi.Paginate.{page_of}
use stockic_feed_api.FeedApi.Paginate.Pages.{paginate_articles_lem, paginate_articles_overflow}

-- The answer with the articles of one page, with status 200 unless another was sent.
abbrev pub Serves :
    {W : Type 0}
    → Option (Writer × List Task × W)
    → Writer
    → List SummarizedArticle
    → List SummarizedArticle
    → W
    → Type 0
Serves r w all shown world = r ≡ some (json_response (page (page_of all shown)) w, [], world)

module _ (w : Writer) (articles : List SummarizedArticle) (small : length articles < sign_bit)
    (n size : ℕ) (n_pos : 1 ≤ n) (size_pos : 1 ≤ size) where
  pub page_response_lem :
      n * size < sign_bit
      → page_response w articles n size
        ≡ some
            (json_response (page (page_of articles (take size (drop ((n - 1) * size) articles)))) w)
  unfolding page_response
  page_response_lem h = rw (paginate_articles_lem articles small n size n_pos size_pos h)

  page_response_overflow :
      n < sign_bit → sign_bit ≤ (n - 1) * size % modulus → page_response w articles n size ≡ none
  unfolding page_response
  page_response_overflow h k =
      rw (paginate_articles_overflow articles small n size n_pos size_pos h k)

is_get :
    (request : Request) → request.method ≡ codes "GET" → str_eq request.method (codes "GET") ≡ true
is_get request get = ap (λ m. str_eq m (codes "GET")) get ∙ str_eq_refl (codes "GET")

module _ {W : Type 0} (news_cache : Redis W) (codec : Codec News) (request : Request) (w : Writer)
    (world : W) (get : request.method ≡ codes "GET") where
  module _ (text : Bytes) (news : News)
      (stored : (news_cache.get (codes "headlines") world).0 ≡ value text)
      (decoded : codec.unmarshal text ≡ some news)
      (small : length (articles_at (codes "us") news) < sign_bit) where
    pub headlines_handler-Serves :
        (s : Bytes) (size : ℕ)
        → get_elem? (path_parts request) 4 ≡ some s
        → positive_number s ≡ some size
        → Serves
            (headlines_handler news_cache codec request w world)
            w
            (articles_at (codes "us") news)
            (take size (articles_at (codes "us") news))
            (news_cache.get (codes "headlines") world).1
    unfolding headlines_handler headlines_page read_news after_reply finish
    headlines_handler-Serves s size part number =
        let (pos, fits) = positive_number_bounds s size number in
        let none_before : (1 - 1) * size ≡ 0 = omega arith in
        rw (
          is_get request get,
          guard_passes (path_parts request) 4 part,
          part,
          number,
          stored,
          decoded,
          page_response_lem w (articles_at (codes "us") news) small 1 size (omega arith) pos
              (omega arith),
          none_before,
        )

    module _ (s t : Bytes) (size n : ℕ) (size_part : get_elem? (path_parts request) 4 ≡ some s)
        (page_part : get_elem? (path_parts request) 5 ≡ some t)
        (size_number : positive_number s ≡ some size)
        (page_number : positive_number t ≡ some n) where
      -- A GET request of any user for the news feed with two accepted numbers is answered with the
      -- page of the articles of the United States that they name, if the last index of the page is
      -- a 64-bit number.
      pub news_feed_handler-Serves :
          n * size < sign_bit
          → Serves
              (news_feed_handler news_cache codec request w world)
              w
              (articles_at (codes "us") news)
              (take size (drop ((n - 1) * size) (articles_at (codes "us") news)))
              (news_cache.get (codes "headlines") world).1
      unfolding news_feed_handler news_feed_page read_news after_reply finish
      news_feed_handler-Serves h =
          let (size_pos, _) = positive_number_bounds s size size_number in
          let (n_pos, _) = positive_number_bounds t n page_number in
          rw (
            is_get request get,
            guard_passes (path_parts request) 5 page_part,
            size_part,
            page_part,
            size_number,
            page_number,
            stored,
            decoded,
            page_response_lem w (articles_at (codes "us") news) small n size n_pos size_pos h,
          )

      -- A GET request for the news feed that passes every check of the handler makes it panic, if
      -- the product of the page number less one and the page size wraps around to a negative
      -- 64-bit number.
      pub news_feed_handler-panics :
          sign_bit ≤ (n - 1) * size % modulus
          → news_feed_handler news_cache codec request w world ≡ none
      unfolding news_feed_handler news_feed_page read_news after_reply finish
      news_feed_handler-panics k =
          let (size_pos, _) = positive_number_bounds s size size_number in
          let (n_pos, fits) = positive_number_bounds t n page_number in
          rw (
            is_get request get,
            guard_passes (path_parts request) 5 page_part,
            size_part,
            page_part,
            size_number,
            page_number,
            stored,
            decoded,
            page_response_overflow w (articles_at (codes "us") news) small n size n_pos size_pos
                fits k,
          )

  module _ (text : Bytes) (news : News)
      (stored : (news_cache.get (codes "discover") world).0 ≡ value text)
      (decoded : codec.unmarshal text ≡ some news) (category s t : Bytes) (size n : ℕ)
      (named : category ≢ []) (category_part : get_elem? (path_parts request) 4 ≡ some category)
      (size_part : get_elem? (path_parts request) 5 ≡ some s)
      (page_part : get_elem? (path_parts request) 6 ≡ some t)
      (size_number : positive_number s ≡ some size) (page_number : positive_number t ≡ some n) where
    -- A GET request for a category that the discover news have is answered with the page of that
    -- category's articles that its two numbers name, if the last index of the page is a 64-bit
    -- number.
    pub discover_handler-Serves :
        (response : SummarizedResponse)
        → lookup category news ≡ some response
        → length response.articles < sign_bit
        → n * size < sign_bit
        → Serves
            (discover_handler news_cache codec request w world)
            w
            response.articles
            (take size (drop ((n - 1) * size) response.articles))
            (news_cache.get (codes "discover") world).1
    unfolding discover_handler discover_page read_news after_reply finish
    discover_handler-Serves response there small h =
        let (size_pos, _) = positive_number_bounds s size size_number in
        let (n_pos, _) = positive_number_bounds t n page_number in
        rw (
          is_get request get,
          guard_passes (path_parts request) 6 page_part,
          category_part,
          size_part,
          page_part,
          not-str_eq category named,
          size_number,
          page_number,
          stored,
          decoded,
          there,
          page_response_lem w response.articles small n size n_pos size_pos h,
        )

    pub discover_handler-unknown :
        lookup category news ≡ none
        → discover_handler news_cache codec request w world
          ≡ some (
            http_error (codes "Category not found") 404 w,
            [],
            (news_cache.get (codes "discover") world).1,
          )
    unfolding discover_handler discover_page read_news after_reply finish
    discover_handler-unknown missing = rw (
      is_get request get,
      guard_passes (path_parts request) 6 page_part,
      category_part,
      size_part,
      page_part,
      not-str_eq category named,
      size_number,
      page_number,
      stored,
      decoded,
      missing,
    )
