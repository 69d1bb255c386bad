-- ===== src/FeedCurator/Models.antt =====
-- feed-curator/models/models.go
use stockic_feed_api.Common.{ℕ, List}
use stockic_feed_api.Go.Text.{Bytes}

pub record Source : Type 0 where
  pub id : Bytes
  pub name : Bytes

pub record Article : Type 0 where
  pub source : Source
  pub author : Bytes
  pub title : Bytes
  pub description : Bytes
  pub url : Bytes
  pub url_to_image : Bytes
  pub published_at : Bytes
  pub content : Bytes

-- `total_results` is a 64-bit pattern
pub record ApiResponse : Type 0 where
  pub status : Bytes
  pub total_results : ℕ
  pub articles : List Article

pub record SummarizedArticle : Type 0 where
  pub stockic_id : Bytes
  pub source : Bytes
  pub author : Bytes
  pub title : Bytes
  pub url : Bytes
  pub url_to_image : Bytes
  pub published_at : Bytes
  pub summarized_content : Bytes
  pub companies_tags : List Bytes
  pub news_highlights : List (List ℕ)

pub record SummarizedResponse : Type 0 where
  pub status : Bytes
  pub total_results : ℕ
  pub articles : List SummarizedArticle
