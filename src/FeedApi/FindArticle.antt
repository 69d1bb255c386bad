-- ===== src/FeedApi/FindArticle.antt =====
-- `FindArticleByID` of feed-api/services/services.go. A decoded Go map is the list of its entries, in
-- the order in which a `range` loop happens to visit them.
pub mod Search
use stockic_feed_api.Common.{List, [], ◌∷◌, Option, none, some, if◌then◌else◌}
use stockic_feed_api.Go.Text.{Bytes, str_eq}
use stockic_feed_api.Stores.Codec.{Codec}
use stockic_feed_api.FeedApi.Models.{SummarizedArticle, SummarizedResponse}

abbrev pub News : Type 0
News = List (Bytes × SummarizedResponse)

find_in_articles : Bytes → List SummarizedArticle → Option SummarizedArticle
find_in_articles id [] = none
find_in_articles id (a ∷ articles) =
    if str_eq a.stockic_id id then some a else find_in_articles id articles

abbrev pub or_else {ℓ} : {A : Type ℓ} → Option A → Option A → Option A
or_else none other = other
or_else (some a) other = some a

find_in_news : Bytes → News → Option SummarizedArticle
unfolding find_in_articles
find_in_news id [] = none
find_in_news id ((k, response) ∷ news) =
    or_else (find_in_articles id response.articles) (find_in_news id news)

find_in_decoded : Bytes → Option News → Option SummarizedArticle
unfolding find_in_news
find_in_decoded id none = none
find_in_decoded id (some news) = find_in_news id news

-- A text that cannot be decoded is skipped.
unfoldable pub find_article_by_id : Codec News → Bytes → Bytes → Bytes → Option SummarizedArticle
unfolding find_in_decoded
find_article_by_id json id headlines_data discover_data =
    or_else (find_in_decoded id (json.unmarshal headlines_data))
      (find_in_decoded id (json.unmarshal discover_data))
