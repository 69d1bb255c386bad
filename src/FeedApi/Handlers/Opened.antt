-- ===== src/FeedApi/Handlers/Opened.antt =====
-- The detail handler opens every article of the news cache.
use mathlib.Core.List.Memᴰ
use mathlib.Core.List.{Memᴰ}
use mathlib.Core.Option.{some-injective}
use mathlib.Core.Path.{subst}
use stockic_feed_api.Common.{
  ◌≡◌, refl, sym, ap, ◌∙◌, arith, List, [], ◌∷◌, ◌++◌, Option, none, some, All, Bool-cases, inl,
  inr,
}
use stockic_feed_api.Go.Http.{Request}
use stockic_feed_api.Go.Text.{Bytes, codes, str_eq, split}
use stockic_feed_api.Go.Text.Laws.{Lacks, split_first, split_single, str_eq_refl}
use stockic_feed_api.Stores.Codec.{Codec}
use stockic_feed_api.Stores.Redis.{Redis, value}
use stockic_feed_api.FeedApi.FindArticle.{News, find_article_by_id}
use stockic_feed_api.FeedApi.FindArticle.Search.{
  Answers, articles_of, decoded_articles, find_article_by_id-Answers,
}
use stockic_feed_api.FeedApi.Handlers.Base.{article, Writer, increment, json_response, path_parts}
use stockic_feed_api.FeedApi.Handlers.Detail.{
  redis_key, found_article, with_discover, with_headlines, detail_of, detail_parts, detail_handler,
}
use stockic_feed_api.FeedApi.Handlers.Lists.{lookup}
use stockic_feed_api.FeedApi.Models.{SummarizedArticle, SummarizedResponse}

pub All-Memᴰ {ℓ κ} :
    {A : Type ℓ} (P : A → Type κ) (xs : List A) {x : A} → All P xs → Memᴰ x xs → P x
All-Memᴰ P [] h m = elim m [ ]
All-Memᴰ P (y ∷ xs) (p, h) (Memᴰ.head e) = subst P (sym e) p
All-Memᴰ P (y ∷ xs) (p, h) (Memᴰ.tail m) = All-Memᴰ P xs h m

-- The articles of an entry are among all articles.
pub lookup-articles_of :
    (key : Bytes) (news : News) (r : SummarizedResponse) (a : SummarizedArticle)
    → lookup key news ≡ some r
    → Memᴰ a r.articles
    → Memᴰ a (articles_of news)
unfolding lookup
lookup-articles_of key [] r a found m = cc
lookup-articles_of key ((k, s) ∷ news) r a found m = elim (Bool-cases (str_eq k key)) [
  | inl same ↦
      let is_r : s ≡ r = some-injective _ _ (rw same at found) in
      Memᴰ.append_left {s = s.articles} _ (rw is_r m)
  | inr differs ↦
      Memᴰ.append_right s.articles (lookup-articles_of key news r a (rw differs at found) m)
]

-- An article that is there is found, or another one with the same id.
find_article_by_id-found :
    (codec : Codec News) (h d : Bytes) (a : SummarizedArticle)
    → Memᴰ a (decoded_articles (codec.unmarshal h))
    → (b : SummarizedArticle) × (find_article_by_id codec a.stockic_id h d ≡ some b)
      × (b.stockic_id ≡ a.stockic_id)
find_article_by_id-found codec h d a m =
    go (find_article_by_id codec a.stockic_id h d) refl
      (find_article_by_id-Answers a.stockic_id codec h d)
  where
    go :
        (o : Option SummarizedArticle)
        → find_article_by_id codec a.stockic_id h d ≡ o
        → Answers a.stockic_id
            (decoded_articles (codec.unmarshal h) ++ decoded_articles (codec.unmarshal d))
            o
        → (b : SummarizedArticle) × (find_article_by_id codec a.stockic_id h d ≡ some b)
          × (b.stockic_id ≡ a.stockic_id)
    go none e lacks = absurd (All-Memᴰ _ _ lacks (Memᴰ.append_left _ m) refl)
    go (some b) e (_, same) = (b, e, same)

-- The parts of the path of a request for an article.
split-detail :
    (id : Bytes)
    → Lacks b'/' id
    → split (codes "/api/v2/detail/" ++ id) b'/'
      ≡ [] ∷ codes "api" ∷ codes "v2" ∷ codes "detail" ∷ id ∷ []
split-detail id whole =
    split_first [] _ b'/' tt
    ∙ ap (λ r. [] ∷ r)
        (split_first (codes "api") _ b'/' (omega arith)
          ∙ ap (λ r. codes "api" ∷ r)
              (split_first (codes "v2") _ b'/' (omega arith)
                ∙ ap (λ r. codes "v2" ∷ r)
                    (split_first (codes "detail") id b'/' (omega arith)
                      ∙ ap (λ r. codes "detail" ∷ r) (split_single id b'/' whole))))

module _ {W : Type 0} (news_cache : Redis W) (codec : Codec News) (w : Writer)
    (request : Request) where
  -- A request for an article of the headlines is answered with an article of its id, and one read of
  -- it by this user is counted, as long as both entries of the cache can be read.
  pub detail_handler-opens :
      (world world_1 world_2 : W) (h d : Bytes) (a : SummarizedArticle)
      → Lacks b'/' a.stockic_id
      → request.method ≡ codes "GET"
      → request.path ≡ codes "/api/v2/detail/" ++ a.stockic_id
      → news_cache.get (codes "headlines") world ≡ (value h, world_1)
      → news_cache.get (codes "discover") world_1 ≡ (value d, world_2)
      → Memᴰ a (decoded_articles (codec.unmarshal h))
      → (b : SummarizedArticle) × (b.stockic_id ≡ a.stockic_id)
        × (detail_handler news_cache codec request w world
            ≡ some (
              json_response (article b) w,
              increment (redis_key a.stockic_id (request.header (codes "X-API-Key"))) ∷ [],
              world_2,
            ))
  unfolding detail_handler detail_parts detail_of with_headlines with_discover found_article
      path_parts
  detail_handler-opens world world_1 world_2 h d a whole get path headlines discover m =
      let (b, found, same) = find_article_by_id-found codec h d a m in
      (
        b,
        same,
        rw
            (
              ap (λ m. str_eq m (codes "GET")) get ∙ str_eq_refl (codes "GET"),
              path,
              split-detail a.stockic_id whole,
              headlines,
              discover,
              found,
            )
            refl,
      )
