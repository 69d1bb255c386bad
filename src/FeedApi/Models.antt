-- ===== src/FeedApi/Models.antt =====
-- feed-api/models/models.go
use stockic_feed_api.Common.{ℕ, Bool, List}
use stockic_feed_api.Go.Text.{Bytes}

pub record SummarizedArticle : Type 0 where
  pub stockic_id : Bytes
  pub source : Bytes
  pub author : Bytes
  pub title : Bytes
  pub url : Bytes
  pub url_to_image : Bytes
  pub published_at : Bytes
  pub summarized_content : Bytes
  pub companies_tags : List Bytes
  pub news_highlights : List (List ℕ)

pub record SummarizedResponse : Type 0 where
  pub status : Bytes
  pub total_results : ℕ
  pub articles : List SummarizedArticle

pub record UserStatus : Type 0 where
  pub exists : Bool
  pub premium : Bool
