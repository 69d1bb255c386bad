-- ===== src/FeedCurator/Utils/Points.antt =====
-- The points of a text are read back, and no heading stays in a list of tags.
use stockic_feed_api.Common.{
  ◌≡◌, refl, ap, inl, inr, false, List, [], ◌∷◌, ◌++◌, All, Bool-cases, arith,
}
use stockic_feed_api.Go.Text.{Bytes, has_prefix, split}
use stockic_feed_api.Go.Text.Laws.{Lacks, split_first}
use stockic_feed_api.Go.Trim.{trim_space, skip}
use stockic_feed_api.Go.Trim.Laws.{IsTrimmed, trim_space-IsTrimmed, star-IsTrimmed}
use stockic_feed_api.FeedCurator.Utils.{
  has_hash_prefix, remove_hash_prefix, points_of, extract_points,
}

-- The text with one line for each point, a star in front.
abbrev pub starred : List Bytes → Bytes
starred [] = []
starred (p ∷ ps) = (b'*' ∷ p) ++ b'\n' ∷ starred ps

extract_points_empty : extract_points [] ≡ []
unfolding extract_points points_of split has_prefix trim_space skip
extract_points_empty = refl

-- The points of a text that has one line for each of some points, with a star in front, are these
-- points, if none of them holds a line break or has a space at one of its ends.
pub extract_points-starred :
    (ps : List Bytes) → All (λ p. IsTrimmed p × Lacks b'\n' p) ps → extract_points (starred ps) ≡ ps
unfolding extract_points points_of has_prefix
extract_points-starred [] h = extract_points_empty
extract_points-starred (p ∷ ps) ((trimmed, whole), h) =
    rw
      (
        split_first (b'*' ∷ p) (starred ps) b'\n' (omega arith, whole),
        points_of,
        trim_space-IsTrimmed (b'*' ∷ p) (star-IsTrimmed p trimmed),
        trim_space-IsTrimmed p trimmed,
      )
      (ap (λ r. p ∷ r) (extract_points-starred ps h))

-- No heading is left.
pub remove_hash_prefix-plain :
    (input : List Bytes) → All (λ s. has_hash_prefix s ≡ false) (remove_hash_prefix input)
unfolding remove_hash_prefix
remove_hash_prefix-plain [] = tt
remove_hash_prefix-plain (s ∷ input) = elim (Bool-cases (has_hash_prefix s)) [
  | inl heading ↦ rw heading (remove_hash_prefix-plain input)
  | inr plain ↦ rw plain (plain, remove_hash_prefix-plain input)
]
