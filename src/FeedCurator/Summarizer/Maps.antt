-- ===== src/FeedCurator/Summarizer/Maps.antt =====
-- Go maps as lists of entries up to the order in which a loop visits them.
use mathlib.Core.Quot
use mathlib.Core.Quot.{Quot, Quot-set}
use stockic_feed_api.Common.{
  ℕ, ◌+◌, ◌≤◌, ◌≡◌, ◌≢◌, refl, sym, ap, ◌∙◌, inl, inr, List, [], ◌∷◌, Option, none, some, arith,
  length, length-append, Bool-cases,
}
use stockic_feed_api.Go.Text.{Bytes, str_eq}
use stockic_feed_api.Go.Text.Laws.{str_eq→eq, str_eq_refl}
use stockic_feed_api.FeedCurator.Models.{ApiResponse, SummarizedArticle, SummarizedResponse}
use stockic_feed_api.FeedCurator.Summarizer.{
  discover_image, summarize_articles, summarize_country_categorized_headlines, summarize_from,
  summarize_categorized_news,
}
use stockic_feed_api.FeedCurator.Summarizer.Categories.{
  entry_of, on_response, summarize_country_categorized_headlines-entry_of,
}

-- Two lists of entries are the same map: every key has the same value.
abbrev pub SameEntries : {A : Type 0} → List (Bytes × A) → List (Bytes × A) → Type 0
SameEntries m n = (key : Bytes) → entry_of key m ≡ entry_of key n

abbrev pub GoMap : Type 0 → Type 0
GoMap A = Quot (SameEntries {A = A})

abbrev pub of_entries : {A : Type 0} → List (Bytes × A) → GoMap A
of_entries m = Quot.mk m

-- Changing the order of two entries with different keys does not change the map.
pub swapped-SameEntries :
    {A : Type 0}
    → (c d : Bytes) (a b : A) → c ≢ d
    → SameEntries ((c, a) ∷ (d, b) ∷ []) ((d, b) ∷ (c, a) ∷ [])
unfolding entry_of
swapped-SameEntries c d a b differs key = elim (Bool-cases (str_eq c key)) [
  | inl here ↦ elim (Bool-cases (str_eq d c)) [
    | inl same ↦ absurd (differs (sym (str_eq→eq d c same)))
    | inr other ↦ rw (here, ← str_eq→eq c key here, other) refl
  ]
  | inr there ↦ rw there refl
]

module _ (sha256 : Bytes → Bytes) where
  summarized : GoMap ApiResponse → GoMap SummarizedResponse
  summarized =
      Quot.lift Quot-set (λ m. of_entries (summarize_country_categorized_headlines sha256 m))
        (λ m n same. Quot.sound (λ key.
          summarize_country_categorized_headlines-entry_of sha256 key m
          ∙ ap (on_response _) (same key)
          ∙ sym (summarize_country_categorized_headlines-entry_of sha256 key n)))

  -- Whatever order the loop visits the countries in, it builds the same map of summaries.
  pub summarize_country_categorized_headlines-orderless :
      (m n : List (Bytes × ApiResponse))
      → of_entries m ≡ of_entries n
      → of_entries (summarize_country_categorized_headlines sha256 m)
        ≡ of_entries (summarize_country_categorized_headlines sha256 n)
  unfolding summarized
  summarize_country_categorized_headlines-orderless m n same = ap summarized same

  -- The number of articles that a map of summaries has under a key.
  total_in : Option SummarizedResponse → ℕ
  total_in none = 0
  total_in (some r) = length r.articles

  total_of : Bytes → GoMap SummarizedResponse → ℕ
  unfolding total_in
  total_of key =
      Quot.lift (hlevel) (λ m. total_in (entry_of key m)) (λ m n same. ap total_in (same key))

  total_of-first :
      (c : Bytes) (r : ApiResponse) (m : List (Bytes × ApiResponse))
      → total_of c (of_entries (summarize_categorized_news sha256 ((c, r) ∷ m)))
        ≡ length (summarize_articles sha256 discover_image r.articles)
  unfolding total_of summarize_categorized_news summarize_from entry_of total_in
  total_of-first c r m = rw str_eq_refl refl

  total_of-second :
      (c d : Bytes) (r s : ApiResponse)
      → c ≢ d
      → total_of c (of_entries (summarize_categorized_news sha256 ((d, s) ∷ (c, r) ∷ [])))
        ≡ length (summarize_articles sha256 discover_image s.articles)
          + length (summarize_articles sha256 discover_image r.articles)
  unfolding total_of summarize_categorized_news summarize_from entry_of total_in
  total_of-second c d r s differs = elim (Bool-cases (str_eq d c)) [
    | inl same ↦ absurd (differs (sym (str_eq→eq d c same)))
    | inr other ↦ rw (other, str_eq_refl) (length-append _ _)
  ]

  length-nonempty : (xs : List SummarizedArticle) → xs ≢ [] → 1 ≤ length xs
  length-nonempty [] h = absurd (h refl)
  length-nonempty (x ∷ xs) h = omega arith

  -- Two discover categories, of which the second has an article with an image, are one map in either
  -- order, but the loop builds two different maps of them.
  pub summarize_categorized_news-ordered :
      (c d : Bytes) (r s : ApiResponse)
      → c ≢ d
      → summarize_articles sha256 discover_image s.articles ≢ []
      → (of_entries ((c, r) ∷ (d, s) ∷ []) ≡ of_entries ((d, s) ∷ (c, r) ∷ []))
        × (of_entries (summarize_categorized_news sha256 ((c, r) ∷ (d, s) ∷ []))
            ≢ of_entries (summarize_categorized_news sha256 ((d, s) ∷ (c, r) ∷ [])))
  summarize_categorized_news-ordered c d r s differs some_news = (
    Quot.sound (swapped-SameEntries c d r s differs),
    λ e.
        let same = ap (total_of c) e in
        absurd (
          omega (
            arith,
            same,
            total_of-first c r ((d, s) ∷ []),
            total_of-second c d r s differs,
            length-nonempty _ some_news,
          )),
  )
