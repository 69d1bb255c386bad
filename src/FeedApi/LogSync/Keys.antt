-- ===== src/FeedApi/LogSync/Keys.antt =====
-- The keys that the detail handler counts under are read back by the synchronisation.
use stockic_feed_api.Common.{◌≡◌, ◌∙◌, ap, [], ◌∷◌, ◌++◌, some, arith, All-append}
use stockic_feed_api.Go.Text.{Bytes, codes, split}
use stockic_feed_api.Go.Text.Laws.{Lacks, split_first, split_single, trim_prefix-append}
use stockic_feed_api.FeedApi.Handlers.Detail.{redis_key}
use stockic_feed_api.FeedApi.LogSync.{parse_key}

module _ (news_id api_key : Bytes) (h : Lacks b'/' news_id) (k : Lacks b'/' api_key) where
  split-redis_key :
      split (redis_key news_id api_key) b'/'
      ≡ codes "endpoint:"
        ∷ codes "detail"
        ∷ (codes "news:" ++ news_id)
        ∷ (codes "user:" ++ api_key)
        ∷ []
  unfolding redis_key
  split-redis_key =
      split_first (codes "endpoint:") _ b'/' (omega arith)
      ∙ ap (λ parts. codes "endpoint:" ∷ parts)
          (split_first (codes "detail") _ b'/' (omega arith)
            ∙ ap (λ parts. codes "detail" ∷ parts)
                (split_first (codes "news:" ++ news_id) (codes "user:" ++ api_key) b'/'
                    (All-append _ (codes "news:") news_id (omega arith) h)
                  ∙ ap (λ parts. (codes "news:" ++ news_id) ∷ parts)
                      (split_single (codes "user:" ++ api_key) b'/'
                        (All-append _ (codes "user:") api_key (omega arith) k))))

  -- Where neither the id nor the API key holds a slash, both are read back as they were.
  pub parse_key-redis_key : parse_key (redis_key news_id api_key) ≡ some (news_id, api_key)
  unfolding parse_key
  parse_key-redis_key = rw (
    split-redis_key,
    trim_prefix-append (codes "news:") news_id,
    trim_prefix-append (codes "user:") api_key,
  )
