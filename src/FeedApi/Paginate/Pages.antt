-- ===== src/FeedApi/Paginate/Pages.antt =====
-- What `paginate_articles` serves: the requested page, and all pages together the whole list.
use stockic_feed_api.Common.{
  ℕ, ◌+◌, ◌-◌, ◌*◌, ◌%◌, ◌≤◌, ◌<◌, ◌≡◌, List, none, some, arith, ltb, length, take, drop, take_rest,
  drop_all, lt→ltb, Bool-cases, inl, inr, ltb→lt, ltb→le, take-nil, add-sub_left,
}
use stockic_feed_api.Go.Int
use stockic_feed_api.Go.Int.{sign_bit, modulus}
use stockic_feed_api.FeedApi.Models.{SummarizedArticle}
use stockic_feed_api.FeedApi.Paginate.{paginate_articles, page_of, serve, start_index_of}

module _ (articles : List SummarizedArticle) (small : length articles < sign_bit) where
  module _ (i j : ℕ) (fits : i + j < sign_bit) where
    serve_inside :
        i < length articles
        → serve articles i (i + j) ≡ some (page_of articles (take j (drop i articles)))
    unfolding serve
    serve_inside h = elim (Bool-cases (ltb (length articles) (i + j))) [
      | inl cut ↦ rw (
        Int.less_nonneg i (length articles) (omega arith) small,
        lt→ltb i (length articles) h,
        Int.less_nonneg (length articles) (i + j) small fits,
        cut,
        Int.slice_in_range articles i (length articles) (omega arith) (omega arith) small,
        take_rest j i articles (omega (arith, ltb→lt _ _ cut)),
      )
      | inr whole ↦ rw (
        Int.less_nonneg i (length articles) (omega arith) small,
        lt→ltb i (length articles) h,
        Int.less_nonneg (length articles) (i + j) small fits,
        whole,
        Int.slice_in_range articles i (i + j) (omega arith) (ltb→le _ _ whole) small,
        add-sub_left i j,
      )
    ]

    -- Indices that are not negative select what stands between them.
    serve_in_range : serve articles i (i + j) ≡ some (page_of articles (take j (drop i articles)))
    unfolding serve
    serve_in_range = elim (Bool-cases (ltb i (length articles))) [
      | inl inside ↦ serve_inside (ltb→lt _ _ inside)
      | inr outside ↦ rw (
        Int.less_nonneg i (length articles) (omega arith) small,
        outside,
        drop_all i articles (ltb→le _ _ outside),
        take-nil,
      )
    ]

  module _ (page page_size : ℕ) (first : 1 ≤ page) (some_size : 1 ≤ page_size) where
    start_index-exact :
        page * page_size < sign_bit → start_index_of page page_size ≡ (page - 1) * page_size
    unfolding start_index_of
    start_index-exact h = rw (
      Int.sub_one_exact page first (grind arith),
      Int.mul_exact (page - 1) page_size (grind arith),
    )

    -- With a page whose end is representable, the page is what stands behind the earlier pages.
    pub paginate_articles_lem :
        page * page_size < sign_bit
        → paginate_articles articles page page_size
          ≡ some (page_of articles (take page_size (drop ((page - 1) * page_size) articles)))
    unfolding paginate_articles
    paginate_articles_lem h =
        rw (start_index-exact h, Int.add_exact ((page - 1) * page_size) page_size (grind arith))
          (serve_in_range ((page - 1) * page_size) page_size (grind arith))

    -- Where the product that gives the first index wraps around to a negative number, the slice
    -- expression panics, whatever the articles are.
    pub paginate_articles_overflow :
        page < sign_bit
        → sign_bit ≤ (page - 1) * page_size % modulus
        → paginate_articles articles page page_size ≡ none
    unfolding paginate_articles serve start_index_of Int.mul
    paginate_articles_overflow h k = rw (
      Int.sub_one_exact page first h,
      Int.less_negative ((page - 1) * page_size % modulus) (length articles) k (omega arith) small,
      Int.slice_negative {A = SummarizedArticle} articles ((page - 1) * page_size % modulus) _ k,
    )
