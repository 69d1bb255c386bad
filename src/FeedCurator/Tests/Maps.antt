-- ===== src/FeedCurator/Tests/Maps.antt =====
-- Two maps that a loop may visit in either order.
use mathlib.Core.Quot
use stockic_feed_api.Common.{◌≡◌, ◌≢◌, List, [], ◌∷◌}
use stockic_feed_api.Go.Text.{Bytes, codes, str_eq}
use stockic_feed_api.FeedCurator.Models.{ApiResponse}
use stockic_feed_api.FeedCurator.Summarizer.{
  summarize_articles, summarize_country_categorized_headlines, summarize_categorized_news,
}
use stockic_feed_api.FeedCurator.Summarizer.Maps.{
  of_entries, swapped-SameEntries, summarize_country_categorized_headlines-orderless,
  summarize_categorized_news-ordered,
}
use stockic_feed_api.FeedCurator.Tests.Summaries.{fetched, two, first_byte}

abbrev forwards : List (Bytes × ApiResponse)
forwards = (codes "tax", fetched []) ∷ (codes "bonds", fetched two) ∷ []

abbrev backwards : List (Bytes × ApiResponse)
backwards = (codes "bonds", fetched two) ∷ (codes "tax", fetched []) ∷ []

summarize_country_categorized_headlines-orderless_example :
    of_entries (summarize_country_categorized_headlines first_byte forwards)
    ≡ of_entries (summarize_country_categorized_headlines first_byte backwards)
summarize_country_categorized_headlines-orderless_example =
    summarize_country_categorized_headlines-orderless first_byte forwards backwards (
      Quot.sound
        (swapped-SameEntries (codes "tax") (codes "bonds") (fetched []) (fetched two) (λ e. cc)))

summarize_categorized_news-ordered_example :
    (of_entries forwards ≡ of_entries backwards)
    × (of_entries (summarize_categorized_news first_byte forwards)
        ≢ of_entries (summarize_categorized_news first_byte backwards))
unfolding summarize_articles str_eq
summarize_categorized_news-ordered_example =
    summarize_categorized_news-ordered first_byte (codes "tax") (codes "bonds") (fetched [])
      (fetched two) (λ e. cc) (λ e. cc)
