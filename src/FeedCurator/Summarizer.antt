-- ===== src/FeedCurator/Summarizer.antt =====
-- `SummarizeCountryCategorizedHeadlines` and `SummarizeCategorizedNews` of
-- feed-curator/summarizer/summarizer.go. The calls of the AI services are commented out there, so the
-- tags and highlights are fixed values. Maps are the lists of their entries in the order of the loops;
-- `sha256` is `sha256.Sum256`. Printing and log messages are left out.
pub mod Published
pub mod Categories
pub mod Maps
use stockic_feed_api.Common.{ℕ, List, [], ◌∷◌, ◌++◌, Option, none, some, length, if◌then◌else◌}
use stockic_feed_api.Go.Hex.{hex_encode}
use stockic_feed_api.Go.Text.{Bytes, codes, str_eq}
use stockic_feed_api.FeedCurator.Models.{
  Source, Article, ApiResponse, SummarizedArticle, SummarizedResponse,
}

abbrev pub tags : List Bytes
tags = codes "Nvidia" ∷ codes "Google" ∷ []

abbrev pub highlights : List (List ℕ)
highlights = (1 ∷ 5 ∷ []) ∷ (7 ∷ 10 ∷ []) ∷ []

-- the image that headlines of the Washington Post get
abbrev pub headline_image : Bytes
headline_image =
    codes
      "https://theintercept.com/wp-content/uploads/2017/01/the-washington-post-newspaper-2-1484771977.jpg"

-- and the one of its discover news
abbrev pub discover_image : Bytes
discover_image =
    codes
      "https://www.washingtonpost.com/wp-apps/imrs.php?src=https%3A%2F%2Farc-anglerfish-washpost-prod-washpost%252Es3%252Eamazonaws%252Ecom%2Fpublic%2FBA3LQ27PFVG5RCTQ7P2D2SMBJU%252Ejpg&w=924&h=694"

-- `if s == "" { s = default }`
unfoldable pub or_default : Bytes → Bytes → Bytes
or_default s default = if str_eq s [] then default else s

abbrev pub source_of : Article → Bytes
source_of a = or_default a.source.name (codes "Stockic Editors")

unfoldable pub image_of : Bytes → Article → Bytes
image_of post_image a =
    if str_eq (source_of a) (codes "The Washington Post") then post_image else a.url_to_image

-- the article without its id
unfoldable pub unidentified : Bytes → Article → SummarizedArticle
unidentified post_image a = record {
  stockic_id = [];
  source = source_of a;
  author = or_default a.author (codes "Aditya Patil");
  title = a.title;
  url = a.url;
  url_to_image = image_of post_image a;
  published_at = a.published_at;
  summarized_content = a.content;
  companies_tags = tags;
  news_highlights = highlights;
}

-- `fmt.Sprintf("%s%s%s%s%s%s%s", …)`
unfoldable pub concatenated_fields : SummarizedArticle → Bytes
concatenated_fields s =
    s.source
    ++ (s.author
        ++ (s.title ++ (s.url ++ (s.url_to_image ++ (s.published_at ++ s.summarized_content)))))

unfoldable pub stockic_id_of : (Bytes → Bytes) → SummarizedArticle → Bytes
stockic_id_of sha256 s = hex_encode (sha256 (concatenated_fields s))

module _ (sha256 : Bytes → Bytes) (post_image : Bytes) where
  unfoldable pub identified : SummarizedArticle → SummarizedArticle
  identified s = record s { stockic_id = stockic_id_of sha256 s }

  -- The body of the loop over articles: one without an image is skipped.
  unfoldable pub summarize_articles : List Article → List SummarizedArticle
  summarize_articles [] = []
  summarize_articles (a ∷ articles) =
      let rest = summarize_articles articles in
      if str_eq a.url_to_image [] then rest else identified (unidentified post_image a) ∷ rest

abbrev pub response_of : List SummarizedArticle → SummarizedResponse
response_of articles = record {
  status = codes "ok";
  total_results = length articles;
  articles = articles;
}

module _ (sha256 : Bytes → Bytes) where
  unfoldable pub summarize_country_categorized_headlines :
      List (Bytes × ApiResponse) → List (Bytes × SummarizedResponse)
  summarize_country_categorized_headlines [] = []
  summarize_country_categorized_headlines ((category, r) ∷ more) =
      (category, response_of (summarize_articles sha256 headline_image r.articles))
      ∷ summarize_country_categorized_headlines more

  -- The slice of summarized articles is declared outside the loop over categories.
  unfoldable pub summarize_from :
      List SummarizedArticle → List (Bytes × ApiResponse) → List (Bytes × SummarizedResponse)
  summarize_from articles [] = []
  summarize_from articles ((category, r) ∷ more) =
      let articles' = articles ++ summarize_articles sha256 discover_image r.articles in
      (category, response_of articles') ∷ summarize_from articles' more

  unfoldable pub summarize_categorized_news :
      List (Bytes × ApiResponse) → List (Bytes × SummarizedResponse)
  summarize_categorized_news news = summarize_from [] news
