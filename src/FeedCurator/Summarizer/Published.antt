-- ===== src/FeedCurator/Summarizer/Published.antt =====
-- What every summarized article has, and which articles are kept.
use stockic_feed_api.Common.{
  ◌≡◌, ◌≢◌, refl, ap, List, [], ◌∷◌, ◌++◌, append-nil, map, All, Bool-cases, inl, inr,
  if◌then◌else◌,
}
use stockic_feed_api.Go.Hex.{hex_encode, hex_encode-Lacks}
use stockic_feed_api.Go.Text.{Bytes, codes, str_eq}
use stockic_feed_api.Go.Text.Laws.{Lacks, str_eq-false}
use stockic_feed_api.FeedCurator.Models.{Article, SummarizedArticle}
use stockic_feed_api.FeedCurator.Summarizer.{
  source_of, or_default, image_of, unidentified, concatenated_fields, stockic_id_of, identified,
  summarize_articles,
}

or_default-ne-nil : (s default : Bytes) → default ≢ [] → or_default s default ≢ []
unfolding or_default
or_default-ne-nil s default h = elim (Bool-cases (str_eq s [])) [
  | inl empty ↦ rw empty h
  | inr there ↦ rw there (str_eq-false there)
]

image_of-ne-nil :
    (post_image : Bytes) (a : Article)
    → post_image ≢ []
    → a.url_to_image ≢ []
    → image_of post_image a ≢ []
unfolding image_of
image_of-ne-nil post_image a h k =
    elim (Bool-cases (str_eq (source_of a) (codes "The Washington Post"))) [
      | inl post ↦ rw post h
      | inr other ↦ rw other k
    ]

-- The texts of a published article that its id stands for, one after the other.
abbrev pub hashed : SummarizedArticle → List Bytes
hashed s =
    s.source ∷ s.author ∷ s.title ∷ s.url ∷ s.url_to_image ∷ s.published_at ∷ s.summarized_content
    ∷ []

abbrev pub joined : List Bytes → Bytes
joined [] = []
joined (s ∷ texts) = s ++ joined texts

-- The fields that a published article must have, and an id that is the hash of its texts and can
-- stand in a path of the API.
pub record IsPublished (sha256 : Bytes → Bytes) (s : SummarizedArticle) : Type 0 where
  pub has_source : s.source ≢ []
  pub has_author : s.author ≢ []
  pub has_image : s.url_to_image ≢ []
  pub has_id : s.stockic_id ≡ hex_encode (sha256 (joined (hashed s)))
  pub one_part : Lacks b'/' s.stockic_id

-- What a summary keeps of its article.
abbrev pub kept : Article → Bytes × Bytes × Bytes × Bytes
kept a = (a.title, a.url, a.published_at, a.content)

abbrev pub told : SummarizedArticle → Bytes × Bytes × Bytes × Bytes
told s = (s.title, s.url, s.published_at, s.summarized_content)

unfoldable pub with_image : List Article → List Article
with_image [] = []
with_image (a ∷ articles) =
    if str_eq a.url_to_image [] then with_image articles else a ∷ with_image articles

module _ (sha256 : Bytes → Bytes) (post_image : Bytes) (post : post_image ≢ []) where
  identified-IsPublished :
      (a : Article)
      → a.url_to_image ≢ []
      → IsPublished sha256 (identified sha256 post_image (unidentified post_image a))
  unfolding identified unidentified stockic_id_of concatenated_fields
  identified-IsPublished a image = record {
    has_source = or_default-ne-nil a.source.name (codes "Stockic Editors") (λ e. cc);
    has_author = or_default-ne-nil a.author (codes "Aditya Patil") (λ e. cc);
    has_image = image_of-ne-nil post_image a post image;
    has_id = rw append-nil refl;
    one_part = hex_encode-Lacks _;
  }

  All-IsPublished :
      (articles : List Article)
      → All (IsPublished sha256) (summarize_articles sha256 post_image articles)
  unfolding summarize_articles
  All-IsPublished [] = tt
  All-IsPublished (a ∷ articles) = elim (Bool-cases (str_eq a.url_to_image [])) [
    | inl none ↦ rw none (All-IsPublished articles)
    | inr image ↦ rw image (identified-IsPublished a (str_eq-false image), All-IsPublished articles)
  ]

  -- The summaries are those of the articles that have an image, in their order, with the title,
  -- address, date and text of the article.
  pub summarize_articles-with_image :
      (articles : List Article)
      → map told (summarize_articles sha256 post_image articles) ≡ map kept (with_image articles)
  unfolding summarize_articles with_image identified unidentified
  summarize_articles-with_image [] = refl
  summarize_articles-with_image (a ∷ articles) = elim (Bool-cases (str_eq a.url_to_image [])) [
    | inl none ↦ rw none (summarize_articles-with_image articles)
    | inr image ↦ rw image (ap (λ r. kept a ∷ r) (summarize_articles-with_image articles))
  ]

  -- If the substitute image is not empty, the summaries are those of the articles that have an image,
  -- in their order, with the title, address, date and text of the article, and each has a source, an
  -- author, an image, an id that is the hexadecimal hash of its source, author, title, address, image,
  -- date and text, in this order, and no slash in that id.
  pub summarize_articles-IsPublished :
      (articles : List Article)
      → All (IsPublished sha256) (summarize_articles sha256 post_image articles)
        × (map told (summarize_articles sha256 post_image articles)
            ≡ map kept (with_image articles))
  summarize_articles-IsPublished articles =
      (All-IsPublished articles, summarize_articles-with_image articles)
