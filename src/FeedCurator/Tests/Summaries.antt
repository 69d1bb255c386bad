-- ===== src/FeedCurator/Tests/Summaries.antt =====
-- Summaries of two categories.
use stockic_feed_api.Common.{map, ◌≡◌, refl, List, [], ◌∷◌, All}
use stockic_feed_api.Go.Text.{Bytes, codes, str_eq}
use stockic_feed_api.FeedCurator.Models.{Article, ApiResponse}
use stockic_feed_api.FeedCurator.Summarizer.{headline_image, summarize_articles}
use stockic_feed_api.FeedCurator.Summarizer.Published.{
  IsPublished, told, kept, with_image, summarize_articles-IsPublished,
}

abbrev pub article_with : Bytes → Bytes → Article
article_with title image = record {
  source = record { id = []; name = codes "The Washington Post" };
  author = [];
  title = title;
  description = [];
  url = codes "https://example.org";
  url_to_image = image;
  published_at = codes "2025-01-01";
  content = codes "text";
}

abbrev pub fetched : List Article → ApiResponse
fetched articles = record { status = codes "ok"; total_results = 2; articles = articles }

abbrev pub two : List Article
two = article_with (codes "A") (codes "a.png") ∷ article_with (codes "B") [] ∷ []

-- A hash for the tests.
abbrev pub first_byte : Bytes → Bytes
first_byte [] = []
first_byte (b ∷ s) = b ∷ []

kept_test : with_image two ≡ article_with (codes "A") (codes "a.png") ∷ []
unfolding with_image str_eq
kept_test = refl

summarize_articles-IsPublished_example :
    All (IsPublished first_byte) (summarize_articles first_byte headline_image two)
    × (map told (summarize_articles first_byte headline_image two) ≡ map kept (with_image two))
summarize_articles-IsPublished_example =
    summarize_articles-IsPublished first_byte headline_image (λ e. cc) two
