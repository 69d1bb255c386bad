-- ===== src/EndToEnd.antt =====
-- feed-curator and feed-api together: what the one writes into the news cache and the other reads.
pub mod Stored
pub mod Headlines
pub mod Opened
pub mod Served
pub mod Outage
pub mod Status
mod Tests
use stockic_feed_api.Common.{◌≡◌, Bool, true, false, List, Option, none, some, map}
use stockic_feed_api.Go.Text.{Bytes, str_eq}
use stockic_feed_api.Stores.Codec.{Codec}
use stockic_feed_api.Stores.Redis.{Redis, value}
use stockic_feed_api.FeedApi.FindArticle.{News}
use stockic_feed_api.FeedApi.Handlers.Lists.{lookup}
use stockic_feed_api.FeedApi.Models as api
use stockic_feed_api.FeedCurator.Models as curator
use stockic_feed_api.FeedCurator.Summarizer.Categories.{entry_of}

-- The structs of the two services have the same fields under the same JSON names.
abbrev pub read_article : curator.SummarizedArticle → api.SummarizedArticle
read_article a = record {
  stockic_id = a.stockic_id;
  source = a.source;
  author = a.author;
  title = a.title;
  url = a.url;
  url_to_image = a.url_to_image;
  published_at = a.published_at;
  summarized_content = a.summarized_content;
  companies_tags = a.companies_tags;
  news_highlights = a.news_highlights;
}

abbrev pub read_response : curator.SummarizedResponse → api.SummarizedResponse
read_response r = record {
  status = r.status;
  total_results = r.total_results;
  articles = map read_article r.articles;
}

abbrev pub read_entry : Option curator.SummarizedResponse → Option api.SummarizedResponse
read_entry none = none
read_entry (some r) = some (read_response r)

-- What the code relies on in encoding/json: a map that the curator encodes is decoded by feed-api into
-- a map with the same entries, in any order.
abbrev pub Agrees : (List (Bytes × curator.SummarizedResponse) → Option Bytes) → Codec News → Type 0
Agrees marshal codec =
    (m : List (Bytes × curator.SummarizedResponse)) (text : Bytes)
    → marshal m ≡ some text
    → (news : News) × (codec.unmarshal text ≡ some news)
      × ((key : Bytes) → lookup key news ≡ read_entry (entry_of key m))

-- What the code relies on in the news cache: an entry that is set without expiration stays until its
-- key is set again.
pub record IsStore {W : Type 0} (r : Redis W) (entries : W → Bytes → Option Bytes) : Type 0 where
  pub set_stores :
      (k v : Bytes) (w : W) → (r.set k v 0 w).0 ≡ true → entries (r.set k v 0 w).1 k ≡ some v
  pub set_others :
      (j v k : Bytes) (w : W) → str_eq j k ≡ false → entries (r.set j v 0 w).1 k ≡ entries w k
  pub get_keeps : (k : Bytes) (w : W) → entries (r.get k w).1 ≡ entries w
  pub get_reads : (k : Bytes) (w : W) (x : Bytes) → (r.get k w).0 ≡ value x → entries w k ≡ some x
