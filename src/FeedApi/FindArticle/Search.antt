-- ===== src/FeedApi/FindArticle/Search.antt =====
-- `find_article_by_id` finds an article with the id if there is one, in whatever order maps are visited.
use mathlib.Core.List.Memᴰ
use mathlib.Core.List.{Memᴰ}
use stockic_feed_api.Common.{
  ◌≡◌, ◌≢◌, inl, inr, refl, Bool, true, false, List, [], ◌∷◌, ◌++◌, Option, none, some, All,
  All-append, Bool-cases,
}
use stockic_feed_api.Go.Text.{Bytes, str_eq}
use stockic_feed_api.Go.Text.Laws.{str_eq→eq, str_eq_refl}
use stockic_feed_api.Stores.Codec.{Codec}
use stockic_feed_api.FeedApi.Models.{SummarizedArticle}
use stockic_feed_api.FeedApi.FindArticle.{
  News, find_in_articles, find_in_news, find_in_decoded, find_article_by_id, or_else,
}

absurd_of : {b : Bool} → b ≡ false → b ≡ true → ⊥
absurd_of h k = cc

-- All articles of a map, and of a text that may be unreadable.
abbrev pub articles_of : News → List SummarizedArticle
articles_of [] = []
articles_of ((k, response) ∷ news) = response.articles ++ articles_of news

abbrev pub decoded_articles : Option News → List SummarizedArticle
decoded_articles none = []
decoded_articles (some news) = articles_of news

-- The result of a search among articles: one of them that has the id, or none, and then none has it.
abbrev pub Answers : Bytes → List SummarizedArticle → Option SummarizedArticle → Type 0
Answers id articles none = All (λ a. a.stockic_id ≢ id) articles
Answers id articles (some a) = Memᴰ a articles × (a.stockic_id ≡ id)

module _ (id : Bytes) where
  cons-Answers :
      (a : SummarizedArticle) (articles : List SummarizedArticle) (o : Option SummarizedArticle)
      → a.stockic_id ≢ id
      → Answers id articles o
      → Answers id (a ∷ articles) o
  cons-Answers a articles none h k = (h, k)
  cons-Answers a articles (some b) h (k, e) = (Memᴰ.tail k, e)

  find_in_articles-Answers :
      (articles : List SummarizedArticle) → Answers id articles (find_in_articles id articles)
  unfolding find_in_articles
  find_in_articles-Answers [] = tt
  find_in_articles-Answers (a ∷ articles) = elim (Bool-cases (str_eq a.stockic_id id)) [
    | inl same ↦ rw same (Memᴰ.head refl, str_eq→eq _ _ same)
    | inr other ↦ rw other (
        cons-Answers a articles (find_in_articles id articles)
          (λ e. absurd_of other (rw e (str_eq_refl id))) (find_in_articles-Answers articles))
  ]

  or_else-Answers :
      (xs ys : List SummarizedArticle) (o p : Option SummarizedArticle)
      → Answers id xs o
      → Answers id ys p
      → Answers id (xs ++ ys) (or_else o p)
  or_else-Answers xs ys none none h k = All-append _ xs ys h k
  or_else-Answers xs ys none (some a) h k = (Memᴰ.append_right xs k.0, k.1)
  or_else-Answers xs ys (some a) p h k = (Memᴰ.append_left ys h.0, h.1)

  find_in_news-Answers : (news : News) → Answers id (articles_of news) (find_in_news id news)
  unfolding find_in_news
  find_in_news-Answers [] = tt
  find_in_news-Answers ((k, response) ∷ news) =
      or_else-Answers response.articles (articles_of news) (find_in_articles id response.articles)
        (find_in_news id news) (find_in_articles-Answers response.articles)
        (find_in_news-Answers news)

  find_in_decoded-Answers :
      (o : Option News) → Answers id (decoded_articles o) (find_in_decoded id o)
  unfolding find_in_decoded
  find_in_decoded-Answers none = tt
  find_in_decoded-Answers (some news) = find_in_news-Answers news

  -- FindArticleByID returns an article of the headlines or of the discover news that has the id,
  -- and returns none only where no article that can be decoded has it.
  pub find_article_by_id-Answers :
      (json : Codec News) (headlines_data discover_data : Bytes)
      → Answers id
          (decoded_articles (json.unmarshal headlines_data)
            ++ decoded_articles (json.unmarshal discover_data))
          (find_article_by_id json id headlines_data discover_data)
  unfolding find_article_by_id
  find_article_by_id-Answers json headlines_data discover_data =
      let headlines = json.unmarshal headlines_data in
      let discover = json.unmarshal discover_data in
      or_else-Answers (decoded_articles headlines) (decoded_articles discover)
        (find_in_decoded id headlines) (find_in_decoded id discover)
        (find_in_decoded-Answers headlines) (find_in_decoded-Answers discover)
