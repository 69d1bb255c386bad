-- ===== src/FeedApi/Handlers/Counted.antt =====
-- What a detail request shows and counts.
use mathlib.Core.Option.{some-injective}
use mathlib.Core.Path.{subst}
use stockic_feed_api.Common.{
  ℕ, zero, suc, ◌-◌, ◌≡◌, refl, List, [], ◌∷◌, Option, none, some, All, length, get_elem?, ltb,
  Bool-cases, Option-cases, inl, inr,
}
use stockic_feed_api.Go.Http.{Request}
use stockic_feed_api.Go.Text.{Bytes, codes, str_eq, split}
use stockic_feed_api.Go.Text.Laws.{Lacks, split-Lacks}
use stockic_feed_api.Stores.Codec.{Codec}
use stockic_feed_api.Stores.Redis.{Redis, Reply, value, missing, failure}
use stockic_feed_api.FeedApi.FindArticle.{News, find_article_by_id}
use stockic_feed_api.FeedApi.FindArticle.Search.{find_article_by_id-Answers}
use stockic_feed_api.FeedApi.Handlers.Base.{
  article, Writer, Task, increment, json_response, path_parts, finish,
}
use stockic_feed_api.FeedApi.Handlers.Detail.{
  redis_key, found_article, with_discover, with_headlines, detail_of, detail_parts, detail_handler,
}
use stockic_feed_api.FeedApi.LogSync.{parse_key}
use stockic_feed_api.FeedApi.LogSync.Keys.{parse_key-redis_key}
use stockic_feed_api.FeedApi.Models.{SummarizedArticle}

get_elem?-All {ℓ κ} :
    {A : Type ℓ} (P : A → Type κ) (xs : List A) (i : ℕ) {x : A}
    → All P xs
    → get_elem? xs i ≡ some x
    → P x
get_elem?-All P [] i h e = cc
get_elem?-All P (x ∷ xs) zero (p, _) e = subst P (some-injective _ _ e) p
get_elem?-All P (x ∷ xs) (suc i) (_, h) e = get_elem?-All P xs i h e

module _ {W : Type 0} (news_cache : Redis W) (codec : Codec News) (w : Writer) (request : Request)
    (slashless : Lacks b'/' (request.header (codes "X-API-Key"))) where
  -- The article of a counted request: it is shown, and the counter names it and the user.
  abbrev pub IsCounted : Writer → Bytes → Type 0
  IsCounted w' k =
      (a : SummarizedArticle) × (w' ≡ json_response (article a) w)
      × (parse_key k ≡ some (a.stockic_id, request.header (codes "X-API-Key")))

  -- A result that starts a counter.
  abbrev Counts : Option (Writer × List Task × W) → Type 0
  Counts r =
      (w' : Writer) (k : Bytes) (more : List Task) (world' : W)
      → r ≡ some (w', increment k ∷ more, world')
      → IsCounted w' k

  finish-Counts : (w₁ : Writer) (world : W) → Counts (finish (some w₁) world)
  unfolding finish
  finish-Counts w₁ world w' k more world' e = cc

  module _ (news_id : Bytes) (whole : Lacks b'/' news_id) where
    found_article-Counts :
        (headlines_data discover_data : Bytes) (o : Option SummarizedArticle) (world : W)
        → find_article_by_id codec news_id headlines_data discover_data ≡ o
        → Counts (found_article news_cache codec w request news_id o world)
    unfolding found_article
    found_article-Counts h d none world found w' k more world' e =
        finish-Counts _ world w' k more world' e
    found_article-Counts h d (some a) world found w' k more world' e =
        let api_key = request.header (codes "X-API-Key") in
        let (_, has_id) = rw found at (find_article_by_id-Answers news_id codec h d) in
        let same_key : k ≡ redis_key news_id api_key = cc in
        (a, cc, rw (same_key, has_id) (parse_key-redis_key news_id api_key whole slashless))

    with_discover-Counts :
        (headlines_data : Bytes) (r : Reply) (world : W)
        → Counts (with_discover news_cache codec w request news_id headlines_data r world)
    unfolding with_discover
    with_discover-Counts h (value d) world = found_article-Counts h d _ world refl
    with_discover-Counts h missing world = finish-Counts _ world
    with_discover-Counts h failure world = finish-Counts _ world

    with_headlines-Counts :
        (r : Reply) (world : W) → Counts (with_headlines news_cache codec w request news_id r world)
    unfolding with_headlines
    with_headlines-Counts (value h) world =
        with_discover-Counts h (news_cache.get (codes "discover") world).0
          (news_cache.get (codes "discover") world).1
    with_headlines-Counts missing world = finish-Counts _ world
    with_headlines-Counts failure world = finish-Counts _ world

  detail_parts-Counts :
      (parts : List Bytes) (world : W)
      → All (Lacks b'/') parts
      → Counts (detail_parts news_cache codec w request parts world)
  unfolding detail_parts detail_of
  detail_parts-Counts parts world h = elim (Bool-cases (ltb (length parts) 5)) [
    | inl short ↦ rw short (finish-Counts _ world)
    | inr long ↦ elim (Option-cases (get_elem? parts (length parts - 1))) [
      | inl out ↦ rw (long, out) (λ w' k more world' e. cc)
      | inr (news_id, part) ↦
          rw (long, part)
            (with_headlines-Counts news_id
              (get_elem?-All (Lacks b'/') parts (length parts - 1) h part)
              (news_cache.get (codes "headlines") world).0
              (news_cache.get (codes "headlines") world).1)
    ]
  ]

  -- Whenever a detail request with an API key that holds no slash starts a counter, it has shown
  -- an article, and the synchronisation reads the key of the counter back as the id of that
  -- article and the API key of the request.
  pub detail_handler-IsCounted :
      (world : W) (w' : Writer) (k : Bytes) (more : List Task) (world' : W)
      → detail_handler news_cache codec request w world ≡ some (w', increment k ∷ more, world')
      → IsCounted w' k
  unfolding detail_handler path_parts
  detail_handler-IsCounted world = elim (Bool-cases (str_eq request.method (codes "GET"))) [
    | inl get ↦
        rw get (detail_parts-Counts (split request.path b'/') world (split-Lacks request.path b'/'))
    | inr other ↦ rw other (finish-Counts _ world)
  ]
