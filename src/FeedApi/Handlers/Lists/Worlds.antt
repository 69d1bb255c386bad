-- ===== src/FeedApi/Handlers/Lists/Worlds.antt =====
-- The list handlers only read the news cache.
use stockic_feed_api.Common.{ℕ, [], Option, none, some, not, ltb, length, get_elem?}
use stockic_feed_api.Go.Text.{Bytes, codes, str_eq}
use stockic_feed_api.Stores.Codec.{Codec}
use stockic_feed_api.Stores.Redis.{Redis}
use stockic_feed_api.FeedApi.FindArticle.{News}
use stockic_feed_api.FeedApi.Handlers.Base.{Writer, path_parts, positive_number}
use stockic_feed_api.FeedApi.Handlers.Ends.{Ends, Preserves, if-Ends, bind-Ends, finish-Ends}
use stockic_feed_api.FeedApi.Handlers.Lists.{
  ping, read_news, headlines_page, headlines_size, headlines_parts, headlines_handler,
  news_feed_page, news_feed_numbers, news_feed_parts, news_feed_handler, discover_page,
  discover_numbers, discover_category, discover_parts, discover_handler,
}

pub ping-Preserves : {W : Type 0} (P : W → Type 0) → Preserves P ping
unfolding ping
ping-Preserves P request w world p = finish-Ends P (some _) world p

module _ {W : Type 0} (news_cache : Redis W) (codec : Codec News) (P : W → Type 0)
    (get_keeps : (k : Bytes) (w : W) → P w → P (news_cache.get k w).1) where
  read_news-Ends :
      (key fetch_error parse_error : Bytes) (w : Writer) (k : News → Option Writer) (world : W)
      → P world
      → Ends P (read_news news_cache codec key fetch_error parse_error w k world)
  unfolding read_news
  read_news-Ends key fetch_error parse_error w k world p = finish-Ends P _ _ (get_keeps key world p)

  headlines_size-Ends :
      (w : Writer) (size : Option ℕ) (world : W)
      → P world
      → Ends P (headlines_size news_cache codec w size world)
  unfolding headlines_size headlines_page
  headlines_size-Ends w none world p = finish-Ends P _ world p
  headlines_size-Ends w (some size) world p = read_news-Ends _ _ _ w _ world p

  pub headlines_handler-Preserves : Preserves P (headlines_handler news_cache codec)
  unfolding headlines_handler headlines_parts
  headlines_handler-Preserves request w world p =
      if-Ends P (not (str_eq request.method (codes "GET"))) _ _ (finish-Ends P _ world p) (
        if-Ends P (ltb (length (path_parts request)) 5) _ _ (finish-Ends P _ world p) (
          bind-Ends P (get_elem? (path_parts request) 4) _
            (λ size. headlines_size-Ends w (positive_number size) world p)))

  news_feed_numbers-Ends :
      (w : Writer) (size n : Option ℕ) (world : W)
      → P world
      → Ends P (news_feed_numbers news_cache codec w size n world)
  unfolding news_feed_numbers news_feed_page
  news_feed_numbers-Ends w (some size) (some n) world p = read_news-Ends _ _ _ w _ world p
  news_feed_numbers-Ends w none n world p = finish-Ends P _ world p
  news_feed_numbers-Ends w (some size) none world p = finish-Ends P _ world p

  pub news_feed_handler-Preserves : Preserves P (news_feed_handler news_cache codec)
  unfolding news_feed_handler news_feed_parts
  news_feed_handler-Preserves request w world p =
      if-Ends P (not (str_eq request.method (codes "GET"))) _ _ (finish-Ends P _ world p) (
        if-Ends P (ltb (length (path_parts request)) 6) _ _ (finish-Ends P _ world p) (
          bind-Ends P (get_elem? (path_parts request) 4) _ (λ size.
            bind-Ends P (get_elem? (path_parts request) 5) _
              (λ n. news_feed_numbers-Ends w (positive_number size) (positive_number n) world p))))

  discover_numbers-Ends :
      (w : Writer) (category : Bytes) (size n : Option ℕ) (world : W)
      → P world
      → Ends P (discover_numbers news_cache codec w category size n world)
  unfolding discover_numbers discover_page
  discover_numbers-Ends w category none n world p = finish-Ends P _ world p
  discover_numbers-Ends w category (some size) none world p = finish-Ends P _ world p
  discover_numbers-Ends w category (some size) (some n) world p = read_news-Ends _ _ _ w _ world p

  pub discover_handler-Preserves : Preserves P (discover_handler news_cache codec)
  unfolding discover_handler discover_parts discover_category
  discover_handler-Preserves request w world p =
      if-Ends P (not (str_eq request.method (codes "GET"))) _ _ (finish-Ends P _ world p) (
        if-Ends P (ltb (length (path_parts request)) 7) _ _ (finish-Ends P _ world p) (
          bind-Ends P (get_elem? (path_parts request) 4) _ (λ category.
            bind-Ends P (get_elem? (path_parts request) 5) _ (λ size.
              bind-Ends P (get_elem? (path_parts request) 6) _ (λ n.
                if-Ends P (str_eq category []) _ _ (finish-Ends P _ world p) (
                  discover_numbers-Ends w category (positive_number size) (positive_number n) world
                    p))))))
