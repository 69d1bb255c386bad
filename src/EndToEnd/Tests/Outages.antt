-- ===== src/EndToEnd/Tests/Outages.antt =====
-- A round of the curator while the news service does not answer, on a cache with older news.
use stockic_feed_api.Common.{◌≡◌, refl, none, some, [], ◌∷◌}
use stockic_feed_api.Common.State.{State}
use stockic_feed_api.Go.Atoi.{atoi}
use stockic_feed_api.Go.Int.{less}
use stockic_feed_api.Go.Text.{Bytes, codes, split, str_eq}
use stockic_feed_api.FeedApi.Handlers.Base.{path_parts, positive_number}
use stockic_feed_api.FeedApi.Handlers.Lists.{headlines_handler}
use stockic_feed_api.FeedApi.Handlers.Served.{Serves}
use stockic_feed_api.FeedCurator.Fetcher.{Fetch, no_response}
use stockic_feed_api.FeedCurator.Fetcher.Outage.{IsFailure, nothing, asked_once}
use stockic_feed_api.FeedCurator.Fetcher.Paging.{fetched_all}
use stockic_feed_api.FeedCurator.Round.{all_countries, store_both, publish, curate}
use stockic_feed_api.FeedCurator.Storage.{
  put_archive, archive, upload_news_api_response_data_to_minio,
  upload_news_api_summarized_data_to_minio, set_news, store_summarized_redis,
}
use stockic_feed_api.FeedCurator.Summarizer.{
  summarize_articles, summarize_country_categorized_headlines,
}
use stockic_feed_api.EndToEnd.Outage.{ended, curate-Serves-nothing}
use stockic_feed_api.EndToEnd.Tests.Round.{
  World, at, cache, cache-IsStore, no_archive, clock, unmarshal, sha256, text_of, request, w0,
}
use stockic_feed_api.EndToEnd.Tests.Wire.{
  test_marshal, test_codec, test_marshal-Agrees, put_all, get_all, get_list,
}

abbrev silent : Bytes → State World Fetch
silent url w = (no_response, w)

silent-IsFailure : (url : Bytes) (w : World) → IsFailure (silent url w).0
unfolding IsFailure
silent-IsFailure url w = tt

abbrev older : World
older = (codes "headlines", codes "older news") ∷ []

abbrev after : World
after =
    (ended cache test_marshal test_codec test_marshal-Agrees sha256 (λ m. m) (λ k m. refl)
      no_archive clock (λ p. none) (λ p. none) unmarshal silent [] (λ n. []) 0 silent-IsFailure at
      cache-IsStore older).1

abbrev empty_text : Bytes
empty_text = text_of (
    test_marshal
      (summarize_country_categorized_headlines sha256 (fetched_all nothing all_countries)))

curate-Serves-nothing_example :
    (curate no_archive clock
        (λ p. none)
        (λ p. none)
        sha256
        (λ m. m)
        cache
        test_marshal
        unmarshal
        silent
        []
        (λ n. [])
        1
        older
      ≡ some (
          ended cache test_marshal test_codec test_marshal-Agrees sha256
            (λ m. m)
            (λ k m. refl)
            no_archive
            clock
            (λ p. none)
            (λ p. none)
            unmarshal
            silent
            []
            (λ n. [])
            0
            silent-IsFailure
            at
            cache-IsStore
            older))
    × Serves
        (headlines_handler cache test_codec (request (codes "/api/v2/headlines/20")) w0 after)
        w0
        []
        []
        after
unfolding publish store_both asked_once str_eq upload_news_api_response_data_to_minio
    upload_news_api_summarized_data_to_minio archive put_archive store_summarized_redis set_news
    path_parts split positive_number atoi put_all get_all get_list less summarize_articles
curate-Serves-nothing_example =
    curate-Serves-nothing cache test_marshal test_codec test_marshal-Agrees sha256 (λ m. m)
      (λ k m. refl) no_archive clock (λ p. none) (λ p. none) unmarshal silent [] (λ n. []) 0
      silent-IsFailure at cache-IsStore older empty_text (request (codes "/api/v2/headlines/20")) w0
      empty_text (codes "20") 20 refl (λ e. cc) refl refl refl refl
