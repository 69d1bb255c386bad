-- ===== src/FeedApi/Paginate.antt =====
-- `PaginateArticles` of feed-api/services/services.go.
pub mod Pages
pub mod Coverage
use stockic_feed_api.Common.{ℕ, List, [], Option, some, length, if◌then◌else◌, ◌>>=◌}
use stockic_feed_api.Go.Int
use stockic_feed_api.Go.Text.{codes}
use stockic_feed_api.FeedApi.Models.{SummarizedArticle, SummarizedResponse}

unfoldable pub page_of : List SummarizedArticle → List SummarizedArticle → SummarizedResponse
page_of all shown = record { status = codes "ok"; total_results = length all; articles = shown }

-- The articles between two indices, the second cut off at the end of the list. `none` is the panic
-- of a slice expression out of range.
unfoldable pub serve : List SummarizedArticle → ℕ → ℕ → Option SummarizedResponse
serve articles start_index end_index =
    if Int.less start_index (length articles)
    then (do
      shown ←
          Int.slice articles start_index
            (if Int.less (length articles) end_index then length articles else end_index)
      some (page_of articles shown))
    else some (page_of articles [])

unfoldable pub start_index_of : ℕ → ℕ → ℕ
start_index_of page page_size = Int.mul (Int.sub page 1) page_size

-- All numbers are 64-bit patterns.
unfoldable pub paginate_articles : List SummarizedArticle → ℕ → ℕ → Option SummarizedResponse
paginate_articles articles page page_size =
    let start_index = start_index_of page page_size in
    serve articles start_index (Int.add start_index page_size)
