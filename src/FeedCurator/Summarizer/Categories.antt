-- ===== src/FeedCurator/Summarizer/Categories.antt =====
-- How the summaries are spread over the countries and the categories.
use stockic_feed_api.Common.{
  ◌≡◌, refl, ap, ◌∙◌, List, [], ◌∷◌, ◌++◌, append_assoc, append-nil, Option, none, some, arith,
  if◌then◌else◌,
}
use stockic_feed_api.Go.Text.{Bytes, str_eq}
use stockic_feed_api.FeedCurator.Models.{ApiResponse, SummarizedArticle, SummarizedResponse}
use stockic_feed_api.FeedCurator.Summarizer.{
  headline_image, discover_image, response_of, summarize_articles,
  summarize_country_categorized_headlines, summarize_from, summarize_categorized_news,
}

-- The value of a key in a map.
unfoldable pub entry_of {ℓ} : {A : Type ℓ} → Bytes → List (Bytes × A) → Option A
entry_of key [] = none
entry_of key ((k, v) ∷ m) = if str_eq k key then some v else entry_of key m

abbrev pub on_response :
    (ApiResponse → SummarizedResponse) → Option ApiResponse → Option SummarizedResponse
on_response f none = none
on_response f (some r) = some (f r)

module _ (sha256 : Bytes → Bytes) where
  -- Each country that was fetched has exactly the summaries of its own articles, with their
  -- number as the total, and no other country has an entry.
  pub summarize_country_categorized_headlines-entry_of :
      (country : Bytes) (headlines : List (Bytes × ApiResponse))
      → entry_of country (summarize_country_categorized_headlines sha256 headlines)
        ≡ on_response
            (λ r. response_of (summarize_articles sha256 headline_image r.articles))
            (entry_of country headlines)
  unfolding summarize_country_categorized_headlines entry_of
  summarize_country_categorized_headlines-entry_of country [] = refl
  summarize_country_categorized_headlines-entry_of country ((c, r) ∷ more) =
      ground (arith, summarize_country_categorized_headlines-entry_of country more)

  -- The summaries of all categories together.
  pub all_summaries : List (Bytes × ApiResponse) → List SummarizedArticle
  all_summaries [] = []
  all_summaries ((c, r) ∷ more) =
      summarize_articles sha256 discover_image r.articles ++ all_summaries more

  summarize_from-append :
      (articles : List SummarizedArticle) (before after : List (Bytes × ApiResponse))
      → summarize_from sha256 articles (before ++ after)
        ≡ summarize_from sha256 articles before
          ++ summarize_from sha256 (articles ++ all_summaries before) after
  unfolding summarize_from all_summaries
  summarize_from-append articles [] after = rw append-nil
  summarize_from-append articles ((c, r) ∷ before) after =
      let own = summarize_articles sha256 discover_image r.articles in
      ap (λ rest. (c, response_of (articles ++ own)) ∷ rest)
        (summarize_from-append (articles ++ own) before after ∙ rw append_assoc)

  -- The response of a discover category has, in front of the summaries of its own articles, those
  -- of every category that the loop has visited before it.
  pub summarize_categorized_news-append :
      (category : Bytes) (r : ApiResponse) (before after : List (Bytes × ApiResponse))
      → summarize_categorized_news sha256 (before ++ (category, r) ∷ after)
        ≡ summarize_categorized_news sha256 before
          ++ (
            category,
            response_of
                (all_summaries before ++ summarize_articles sha256 discover_image r.articles),
          )
            ∷ summarize_from sha256
                (all_summaries before ++ summarize_articles sha256 discover_image r.articles)
                after
  unfolding summarize_categorized_news summarize_from
  summarize_categorized_news-append category r before after =
      summarize_from-append [] before ((category, r) ∷ after)
