-- ===== src/EndToEnd/Tests/Served.antt =====
-- A request to the server of feed-api after a round of the curator.
use mathlib.Core.List.{Memᴰ}
use stockic_feed_api.Common.{◌≡◌, refl, inr, true, false, [], ◌∷◌, none, some}
use stockic_feed_api.Go.Atoi.{atoi}
use stockic_feed_api.Go.Int.{less}
use stockic_feed_api.Go.Process.{returned}
use stockic_feed_api.Go.Text.{Bytes, codes, split, str_eq}
use stockic_feed_api.Stores.Redis.{Redis, value, missing}
use stockic_feed_api.FeedApi.Handlers.Base.{
  article, increment, json_response, path_parts, positive_number,
}
use stockic_feed_api.FeedApi.Handlers.Detail.{redis_key}
use stockic_feed_api.FeedApi.Models.{SummarizedArticle}
use stockic_feed_api.FeedCurator.Fetcher.{
  news_api_caller, fetch_pages, fetch_each, fetch_headlines_by_country, news_discovery_by_category,
  news_api_headline_caller, news_api_everything_caller,
}
use stockic_feed_api.FeedCurator.Round.{
  store_both, publish, after_discovery, after_headlines, curate,
}
use stockic_feed_api.FeedCurator.Storage.{
  put_archive, archive, upload_news_api_response_data_to_minio,
  upload_news_api_summarized_data_to_minio, set_news, store_summarized_redis,
}
use stockic_feed_api.FeedCurator.Summarizer.{summarize_articles}
use stockic_feed_api.FeedCurator.Summarizer.Categories.{entry_of}
use stockic_feed_api.FeedApi.Routes.{serve}
use stockic_feed_api.FeedApi.Tests.Stores.{
  payer, users, one_user, fetched_of-not_found, fetched_of-snapshot, test_json, test_json-RoundTrip,
}
use stockic_feed_api.FeedApi.UserStatus.{validate_user_api_key}
use stockic_feed_api.FeedApi.UserStatus.Backends.{Backends}
use stockic_feed_api.FeedApi.UserStatus.Coherence.{fetched}
use stockic_feed_api.FeedApi.UserStatus.Untouched.{IsApart, validate_user_api_key-apart}
use stockic_feed_api.EndToEnd.Served.{serve-opens}
use stockic_feed_api.EndToEnd.Tests.Wire.{
  test_marshal, test_codec, test_marshal-Agrees, put_all, get_all, get_list,
}
use stockic_feed_api.EndToEnd.Tests.Round.{
  World, at, cache, cache-IsStore, no_archive, clock, one_story, http_get, unmarshal, sha256,
  text_of, headlines, after, text, w0, opened, story_read,
}

-- A cache of users that is down: every user is read from Firestore.
abbrev down : Redis World
down = record {
  ping = λ m. (false, m);
  get = λ k m. (missing, m);
  set = λ k v ttl m. (false, m);
  exists = λ k m. (0, m);
  incr = λ k m. (false, m);
  keys = λ p m. (none, m);
  get_del = λ k m. (missing, m);
}

missing-value : (x : Bytes) → missing ≡ value x → none ≡ some x
missing-value x e = cc

abbrev backends : Backends down one_user
backends = record {
  entries = λ w k. none;
  users = users;
  is_cache = record {
    ping_keeps = λ w k x e. e;
    get_keeps = λ j w k x e. e;
    get_reads = λ k w x e. missing-value x e;
    set_writes = λ j v ttl w k x e. inr e;
  };
  ping_users = λ w. refl;
  get_users = λ k w. refl;
  set_users = λ k v ttl w. refl;
  doc_users = λ c id w. refl;
  doc_entries = λ c id w. refl;
  not_found_absent = λ id w e. fetched_of-not_found (users w id) e;
  snapshot_present = λ id w e d h. fetched_of-snapshot (users w id) e d h;
}

apart : {V : Type 0} (view : World → V) → IsApart down one_user view
apart view = record {
  ping_keeps = λ w. refl;
  get_keeps = λ k w. refl;
  set_keeps = λ k v ttl w. refl;
  doc_keeps = λ c id w. refl;
}

as_before : (validate_user_api_key down one_user test_json (codes "u1") after).1 ≡ after
as_before =
    validate_user_api_key-apart down one_user test_json (λ w. w) (apart (λ w. w)) (codes "u1") after

serve-opens_example :
    (b : SummarizedArticle) × (b.stockic_id ≡ story_read.stockic_id)
    × (serve down cache one_user test_json test_codec
          (λ w. w)
          (opened story_read.stockic_id)
          w0
          after
        ≡ some (
          json_response (article b) w0,
          increment (redis_key story_read.stockic_id (codes "u1")) ∷ [],
          after,
        ))
unfolding curate after_headlines after_discovery publish store_both fetch_headlines_by_country
    news_discovery_by_category news_api_headline_caller news_api_everything_caller fetch_each
    fetch_pages news_api_caller str_eq upload_news_api_response_data_to_minio
    upload_news_api_summarized_data_to_minio archive put_archive store_summarized_redis set_news
    entry_of path_parts split positive_number atoi put_all get_all get_list less summarize_articles
    fetched
serve-opens_example =
    serve-opens cache test_marshal test_codec test_marshal-Agrees sha256 (λ m. m) (λ k m. refl)
      no_archive clock (λ p. none) (λ p. none) unmarshal http_get [] (λ n. []) 1 at cache-IsStore []
      [] after headlines (returned true) text refl refl refl (λ e. cc) down one_user test_json
      backends test_json-RoundTrip (λ w. w) (apart at) (λ key x s cached read. cc) payer
      (codes "us") one_story story_read (opened story_read.stockic_id) w0 text
      (text_of (at after (codes "discover"))) after after refl (Memᴰ.head refl) refl refl refl
      (λ e. cc) (λ e. cc) (rw as_before refl) refl
