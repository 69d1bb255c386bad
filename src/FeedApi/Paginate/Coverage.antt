-- ===== src/FeedApi/Paginate/Coverage.antt =====
-- The pages that a client gets one after the other are the whole list.
use stockic_feed_api.Common.{
  ℕ, zero, suc, ◌+◌, ◌-◌, ◌*◌, ◌≤◌, ◌<◌, ◌≡◌, ap, ◌∙◌, List, [], ◌++◌, Option, some, arith, length,
  take, take_all, take_add, ◌>>=◌,
}
use stockic_feed_api.Go.Int.{sign_bit}
use stockic_feed_api.FeedApi.Models.{SummarizedArticle}
use stockic_feed_api.FeedApi.Paginate.{paginate_articles, page_of}
use stockic_feed_api.FeedApi.Paginate.Pages.{paginate_articles_lem}

-- The articles of the first pages, as one list.
pub first_pages : List SummarizedArticle → ℕ → ℕ → Option (List SummarizedArticle)
first_pages articles page_size zero = some []
first_pages articles page_size (suc k) = do
  before ← first_pages articles page_size k
  response ← paginate_articles articles (k + 1) page_size
  some (before ++ response.articles)

module _ (articles : List SummarizedArticle) (small : length articles < sign_bit) (page_size : ℕ)
    (some_size : 1 ≤ page_size) where
  first_pages-eq-take :
      (k : ℕ)
      → k * page_size < sign_bit
      → first_pages articles page_size k ≡ some (take (k * page_size) articles)
  unfolding first_pages page_of
  first_pages-eq-take zero h = let e : 0 * page_size ≡ 0 = omega arith in rw e
  first_pages-eq-take (suc k) h =
      let before : k + 1 - 1 ≡ k = omega arith in
      let joined : k * page_size + page_size ≡ suc k * page_size = grind arith in
      rw (
        first_pages-eq-take k (grind arith),
        paginate_articles_lem articles small (k + 1) page_size (omega arith) some_size
            (grind arith),
        before,
        take_add (k * page_size) page_size articles,
        joined,
      )

  -- The pages that PaginateArticles serves for the page numbers 1 to k are together exactly the
  -- list of articles, in order and with none repeated, if they are enough for the list and their
  -- last index is a 64-bit number.
  pub first_pages-all :
      (k : ℕ)
      → k * page_size < sign_bit
      → length articles ≤ k * page_size
      → first_pages articles page_size k ≡ some articles
  first_pages-all k h all =
      first_pages-eq-take k h ∙ ap some (take_all (k * page_size) articles all)
