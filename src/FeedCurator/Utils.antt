-- ===== src/FeedCurator/Utils.antt =====
-- `RemoveDuplicates`, `RemoveHashPrefix`, `ExtractPoints` and `FindHighlightIndexes` of
-- feed-curator/utils/utils.go. A nil slice is the empty list; the lengths of texts in memory are far
-- below 2^63, so the sums do not wrap around.
pub mod Distinct
pub mod Rounds
pub mod Points
use stockic_feed_api.Common.{
  ℕ, zero, suc, ◌+◌, Bool, true, false, List, [], ◌∷◌, ◌++◌, Option, none, some, length, drop, ltb,
  if◌then◌else◌, ◌||◌, ◌>>=◌,
}
use stockic_feed_api.Go.Text.{Bytes, codes, split, str_eq, has_prefix}
use stockic_feed_api.Go.Trim.{trim_space}

-- Whether a text is one of the keys of the map `seen`.
unfoldable pub is_seen : Bytes → List Bytes → Bool
is_seen s [] = false
is_seen s (t ∷ ts) = str_eq t s || is_seen s ts

remove_seen : List Bytes → List Bytes → List Bytes
unfolding is_seen
remove_seen seen [] = []
remove_seen seen (s ∷ input) =
    let skipped = remove_seen seen input in
    let kept = remove_seen (s ∷ seen) input in if is_seen s seen then skipped else s ∷ kept

unfoldable pub remove_duplicates : List Bytes → List Bytes
unfolding remove_seen
remove_duplicates input = remove_seen [] input

unfoldable pub has_hash_prefix : Bytes → Bool
has_hash_prefix s = has_prefix (trim_space s) (codes "##")

unfoldable pub remove_hash_prefix : List Bytes → List Bytes
remove_hash_prefix [] = []
remove_hash_prefix (s ∷ input) =
    let rest = remove_hash_prefix input in if has_hash_prefix s then rest else s ∷ rest

-- `trimmed[1:]` is taken of a text that begins with a star.
unfoldable pub points_of : List Bytes → List Bytes
points_of [] = []
points_of (line ∷ lines) =
    let trimmed = trim_space line in
    let points = points_of lines in
    if has_prefix trimmed (codes "*") then trim_space (drop 1 trimmed) ∷ points else points

unfoldable pub extract_points : Bytes → List Bytes
extract_points input = points_of (split input b'\n')

index_behind : Option ℕ → Option ℕ
index_behind none = none
index_behind (some i) = some (suc i)

-- `strings.Index(s, sub)`, with `none` for -1
unfoldable pub index : Bytes → Bytes → Option ℕ
unfolding index_behind
index [] sub = if has_prefix [] sub then some 0 else none
index (c ∷ s) sub =
    let behind = index s sub in if has_prefix (c ∷ s) sub then some 0 else index_behind behind

abbrev pub Ranges : Type 0
Ranges = List (ℕ × ℕ)

-- The inner loop, on fuel: it has the start position and the result so far.
module _ (content : Bytes) where
  unfoldable pub find_highlight : ℕ → Bytes → ℕ → Ranges → Option Ranges
  find_highlight zero highlight start result = none
  find_highlight (suc fuel) highlight start result =
      if ltb start (length content)
      then elim (index (drop start content) highlight) [
        | none ↦ some result
        | some i ↦
            let from = i + length result in
            let end = from + length highlight in
            find_highlight fuel highlight end (result ++ (from, end) ∷ [])
      ]
      else some result

  unfoldable pub find_highlights : List Bytes → Ranges → Option Ranges
  unfolding find_highlight
  find_highlights [] result = some result
  find_highlights (highlight ∷ rest) result =
      find_highlight (suc (suc (length content))) highlight 0 result >>= find_highlights rest

unfoldable pub find_highlight_indexes : Bytes → List Bytes → Option Ranges
unfolding find_highlights
find_highlight_indexes content highlights = find_highlights content highlights []
