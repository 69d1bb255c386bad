-- ===== src/FeedApi/Handlers/Ends.antt =====
-- What holds of the world when a handler has answered.
use stockic_feed_api.Common.{
  Bool, true, false, List, Option, none, some, if◌then◌else◌, ◌>>=◌, not, ltb, length, get_elem?,
  ◌-◌,
}
use stockic_feed_api.Go.Http.{Request}
use stockic_feed_api.Go.Text.{Bytes, codes, str_eq}
use stockic_feed_api.Stores.Codec.{Codec}
use stockic_feed_api.Stores.Redis.{Redis, Reply, value}
use stockic_feed_api.FeedApi.FindArticle.{News}
use stockic_feed_api.FeedApi.Handlers.Base.{Writer, Task, Handler, finish, path_parts}
use stockic_feed_api.FeedApi.Handlers.Detail.{
  found_article, with_discover, with_headlines, detail_of, detail_parts, detail_handler,
}
use stockic_feed_api.FeedApi.Models.{SummarizedArticle}

-- The world of an answer has the property; a panic leaves none.
abbrev pub Ends : {W : Type 0} → (W → Type 0) → Option (Writer × List Task × W) → Type 0
Ends P none = Unit {0}
Ends P (some (w, tasks, world)) = P world

-- A handler keeps the property.
abbrev pub Preserves : {W : Type 0} → (W → Type 0) → Handler W → Type 0
Preserves {W} P handler =
    (request : Request) (w : Writer) (world : W) → P world → Ends P (handler request w world)

module _ {W : Type 0} (P : W → Type 0) where
  pub if-Ends :
      (b : Bool) (x y : Option (Writer × List Task × W))
      → Ends P x
      → Ends P y
      → Ends P (if b then x else y)
  if-Ends true x y p q = p
  if-Ends false x y p q = q

  pub bind-Ends :
      {A : Type 0} (o : Option A) (f : A → Option (Writer × List Task × W))
      → ((a : A) → Ends P (f a))
      → Ends P (o >>= f)
  bind-Ends none f h = tt
  bind-Ends (some a) f h = h a

  pub finish-Ends : (o : Option Writer) (world : W) → P world → Ends P (finish o world)
  unfolding finish
  finish-Ends none world p = tt
  finish-Ends (some w) world p = p

module _ {W : Type 0} (news_cache : Redis W) (codec : Codec News) (P : W → Type 0)
    (get_keeps : (k : Bytes) (w : W) → P w → P (news_cache.get k w).1) where
  found_article-Ends :
      (w : Writer) (request : Request) (news_id : Bytes) (o : Option SummarizedArticle) (world : W)
      → P world
      → Ends P (found_article news_cache codec w request news_id o world)
  unfolding found_article
  found_article-Ends w request news_id none world p = finish-Ends P _ world p
  found_article-Ends w request news_id (some a) world p = p

  with_discover-Ends :
      (w : Writer) (request : Request) (news_id text : Bytes) (r : Reply) (world : W)
      → P world
      → Ends P (with_discover news_cache codec w request news_id text r world)
  unfolding with_discover
  with_discover-Ends w request news_id text (value d) world p =
      found_article-Ends w request news_id _ world p
  with_discover-Ends w request news_id text _ world p = finish-Ends P _ world p

  with_headlines-Ends :
      (w : Writer) (request : Request) (news_id : Bytes) (r : Reply) (world : W)
      → P world
      → Ends P (with_headlines news_cache codec w request news_id r world)
  unfolding with_headlines
  with_headlines-Ends w request news_id (value text) world p =
      with_discover-Ends w request news_id text _ _ (get_keeps (codes "discover") world p)
  with_headlines-Ends w request news_id _ world p = finish-Ends P _ world p

  pub detail_handler-Preserves : Preserves P (detail_handler news_cache codec)
  unfolding detail_handler detail_parts detail_of
  detail_handler-Preserves request w world p =
      if-Ends P (not (str_eq request.method (codes "GET"))) _ _ (finish-Ends P _ world p) (
        if-Ends P (ltb (length (path_parts request)) 5) _ _ (finish-Ends P _ world p) (
          bind-Ends P (get_elem? (path_parts request) (length (path_parts request) - 1)) _
            (λ news_id.
              with_headlines-Ends w request news_id _ _ (get_keeps (codes "headlines") world p))))
