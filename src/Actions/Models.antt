-- ===== src/Actions/Models.antt =====
-- actions/models/models.go, but for UserStatus, which is that of feed-api, and for Greet.
use stockic_feed_api.Common.{Bool, List}
use stockic_feed_api.Go.Text.{Bytes}

pub record BookmarkRequest : Type 0 where
  pub news_id : Bytes

pub record BookmarkResponse : Type 0 where
  pub success : Bool
  pub message : Bytes
  pub bookmarks : List Bytes

pub record OauthNotionResponse : Type 0 where
  pub success : Bool
  pub oauth_url : Bytes
