-- ===== src/FeedCurator/Tests/Texts.antt =====
-- The text utilities on concrete inputs.
use stockic_feed_api.Common.{◌≡◌, refl, List, [], ◌∷◌, some}
use stockic_feed_api.Go.Text.{Bytes, codes, split, str_eq, has_prefix}
use stockic_feed_api.Go.Trim.{trim_space, skip, width}
use stockic_feed_api.FeedCurator.Utils.{
  is_seen, remove_duplicates, index, find_highlight, find_highlights, find_highlight_indexes,
  has_hash_prefix, remove_hash_prefix, points_of, extract_points,
}

abbrev tags : List Bytes
tags = codes "a" ∷ codes "b" ∷ codes "a" ∷ []

duplicates_test : remove_duplicates tags ≡ codes "a" ∷ codes "b" ∷ []
unfolding remove_duplicates is_seen str_eq
duplicates_test = refl

points_test : extract_points (codes "Points:\n * one \n\n*two") ≡ codes "one" ∷ codes "two" ∷ []
unfolding extract_points points_of split has_prefix trim_space skip width
points_test = refl

headings_test : remove_hash_prefix (codes " ## Tags" ∷ codes "#" ∷ []) ≡ codes "#" ∷ []
unfolding remove_hash_prefix has_hash_prefix has_prefix trim_space skip width
headings_test = refl

-- U+00A0 and U+2003 around a letter
wide_test : trim_space (194 ∷ 160 ∷ 97 ∷ 226 ∷ 128 ∷ 131 ∷ []) ≡ codes "a"
unfolding trim_space skip width has_prefix
wide_test = refl

-- The letter b stands at 1 and 4 only: the search also moves back and records wrong ranges.
second_range :
    find_highlight_indexes (codes "abcabc") (codes "b" ∷ [])
    ≡ some ((1, 2) ∷ (3, 4) ∷ (2, 3) ∷ (4, 5) ∷ [])
unfolding find_highlight_indexes find_highlights find_highlight index has_prefix
second_range = refl
