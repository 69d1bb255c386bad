-- ===== src/FeedCurator/Utils/Rounds.antt =====
-- The loops of `FindHighlightIndexes` end.
use stockic_feed_api.Common.{
  ℕ, zero, suc, ◌+◌, ◌≤◌, ◌≡◌, refl, arith, inl, inr, List, [], ◌∷◌, ◌++◌, some, length,
  length-append, drop, ltb, le→ltb, Bool-cases, Option-cases,
}
use stockic_feed_api.Go.Text.{Bytes}
use stockic_feed_api.FeedCurator.Utils.{
  index, Ranges, find_highlight, find_highlights, find_highlight_indexes,
}

module _ (content : Bytes) where
  -- The position runs ahead of the number of ranges, so the fuel need not exceed what is left.
  find_highlight_enough :
      (n : ℕ) (highlight : Bytes) (start : ℕ) (result : Ranges)
      → length result ≤ start + 1
      → length content + 1 ≤ length result + n
      → (ranges : Ranges) × (find_highlight content (suc n) highlight start result ≡ some ranges)
  unfolding find_highlight
  find_highlight_enough zero highlight start result ahead enough =
      (result, rw (le→ltb start (length content) (omega arith)) refl)
  find_highlight_enough (suc n) highlight start result ahead enough =
      elim (Bool-cases (ltb start (length content))) [
        | inr past ↦ (result, rw past refl)
        | inl inside ↦ elim (Option-cases (index (drop start content) highlight)) [
          | inl absent ↦ (result, rw (inside, absent) refl)
          | inr (i, found) ↦
              let from = i + length result in
              let end = from + length highlight in
              let more = result ++ (from, end) ∷ [] in
              let longer = length-append result ((from, end) ∷ []) in
              let (ranges, e) =
                find_highlight_enough n highlight end more (omega (arith, longer))
                  (omega (arith, longer)) in
              (ranges, rw (inside, found) e)
        ]
      ]

  -- From position 0 one more round is enough, whatever the ranges of other highlights.
  find_highlight-ends :
      (highlight : Bytes) (result : Ranges)
      → (ranges : Ranges) × (find_highlight content (suc (suc (length content))) highlight 0 result
          ≡ some ranges)
  unfolding find_highlight
  find_highlight-ends highlight result = elim (Bool-cases (ltb 0 (length content))) [
    | inr past ↦ (result, rw past refl)
    | inl inside ↦ elim (Option-cases (index content highlight)) [
      | inl absent ↦ (result, rw (inside, absent) refl)
      | inr (i, found) ↦
          let from = i + length result in
          let end = from + length highlight in
          let more = result ++ (from, end) ∷ [] in
          let longer = length-append result ((from, end) ∷ []) in
          let (ranges, e) =
            find_highlight_enough (length content) highlight end more (omega (arith, longer))
              (omega (arith, longer)) in
          (ranges, rw (inside, found) e)
    ]
  ]

  find_highlights-ends :
      (highlights : List Bytes) (result : Ranges)
      → (ranges : Ranges) × (find_highlights content highlights result ≡ some ranges)
  unfolding find_highlights
  find_highlights-ends [] result = (result, refl)
  find_highlights-ends (highlight ∷ rest) result =
      let (more, e) = find_highlight-ends highlight result in
      let (ranges, f) = find_highlights-ends rest more in (ranges, rw e f)

-- The loops of `FindHighlightIndexes` end on every text and all highlights, also empty ones: two rounds
-- more than the text has bytes are enough for a highlight.
pub find_highlight_indexes-ends :
    (content : Bytes) (highlights : List Bytes)
    → (ranges : Ranges) × (find_highlight_indexes content highlights ≡ some ranges)
unfolding find_highlight_indexes
find_highlight_indexes-ends content highlights = find_highlights-ends content highlights []
