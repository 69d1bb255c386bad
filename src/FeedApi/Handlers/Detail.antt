-- ===== src/FeedApi/Handlers/Detail.antt =====
-- `DetailHandler`.
use stockic_feed_api.Common.{
  ◌-◌, not, List, [], ◌∷◌, ◌++◌, Option, none, some, ltb, length, get_elem?, if◌then◌else◌, ◌>>=◌,
}
use stockic_feed_api.Go.Http.{Request, http_error}
use stockic_feed_api.Go.Text.{Bytes, codes, str_eq}
use stockic_feed_api.Stores.Codec.{Codec}
use stockic_feed_api.Stores.Redis.{Redis, Reply, value}
use stockic_feed_api.FeedApi.FindArticle.{News, find_article_by_id}
use stockic_feed_api.FeedApi.Handlers.Base.{
  article, Writer, Task, increment, Handler, json_response, path_parts, finish,
}
use stockic_feed_api.FeedApi.Models.{SummarizedArticle}

-- The counter of a user's reads of an article.
unfoldable pub redis_key : Bytes → Bytes → Bytes
redis_key news_id api_key =
    codes "endpoint:/detail/news:" ++ (news_id ++ (codes "/user:" ++ api_key))

module _ {W : Type 0} (news_cache : Redis W) (codec : Codec News) where
  unfoldable pub found_article :
      Writer → Request → Bytes → Option SummarizedArticle → W → Option (Writer × List Task × W)
  found_article w request news_id none world =
      finish (some (http_error (codes "Article not found") 404 w)) world
  found_article w request news_id (some a) world =
      let api_key = request.header (codes "X-API-Key") in
      some (json_response (article a) w, increment (redis_key news_id api_key) ∷ [], world)

  unfoldable pub with_discover :
      Writer → Request → Bytes → Bytes → Reply → W → Option (Writer × List Task × W)
  unfolding found_article
  with_discover w request news_id headlines_data (value discover_data) world =
      found_article w request news_id
        (find_article_by_id codec news_id headlines_data discover_data) world
  with_discover w request news_id headlines_data _ world =
      finish (some (http_error (codes "Failed to fetch discover news") 500 w)) world

  unfoldable pub with_headlines :
      Writer → Request → Bytes → Reply → W → Option (Writer × List Task × W)
  unfolding with_discover
  with_headlines w request news_id (value headlines_data) world =
      let (reply, world') = news_cache.get (codes "discover") world in
      with_discover w request news_id headlines_data reply world'
  with_headlines w request news_id _ world =
      finish (some (http_error (codes "Failed to fetch headlines") 500 w)) world

  unfoldable pub detail_of : Writer → Request → Bytes → W → Option (Writer × List Task × W)
  unfolding with_headlines
  detail_of w request news_id world =
      let (reply, world') = news_cache.get (codes "headlines") world in
      with_headlines w request news_id reply world'

  unfoldable pub detail_parts : Writer → Request → List Bytes → W → Option (Writer × List Task × W)
  detail_parts w request parts world =
      if ltb (length parts) 5
      then finish (some (http_error (codes "Invalid URL") 400 w)) world
      else (do news_id ← get_elem? parts (length parts - 1); detail_of w request news_id world)

  unfoldable pub detail_handler : Handler W
  unfolding detail_parts
  detail_handler request w world =
      if not (str_eq request.method (codes "GET"))
      then finish (some (http_error (codes "Method not allowed") 405 w)) world
      else detail_parts w request (path_parts request) world
