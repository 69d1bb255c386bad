-- ===== src/FeedCurator/Utils/Distinct.antt =====
-- `RemoveDuplicates` keeps each text once.
use stockic_feed_api.Common.{◌≡◌, refl, ap, inl, inr, false, not, ◌&&◌, List, [], ◌∷◌, Bool-cases}
use stockic_feed_api.Go.Text.{Bytes, str_eq}
use stockic_feed_api.Go.Text.Laws.{str_eq→eq, str_eq_refl}
use stockic_feed_api.FeedCurator.Utils.{is_seen, remove_seen, remove_duplicates}

-- No text stands twice in a list.
abbrev pub Distinct : List Bytes → Type 0
Distinct [] = Unit
Distinct (s ∷ ts) = (is_seen s ts ≡ false) × Distinct ts

-- A text is in the result if it is in the input and has not been seen.
remove_seen-is_seen :
    (s : Bytes) (seen input : List Bytes)
    → is_seen s (remove_seen seen input) ≡ (not (is_seen s seen) && is_seen s input)
unfolding is_seen remove_seen
remove_seen-is_seen s seen [] = elim (Bool-cases (is_seen s seen)) [
  | inl old ↦ rw old refl
  | inr new ↦ rw new refl
]
remove_seen-is_seen s seen (t ∷ input) = elim (Bool-cases (str_eq t s)) [
  | inl same ↦
      let is_s : t ≡ s = str_eq→eq t s same in
      elim (Bool-cases (is_seen s seen)) [
        | inl old ↦
            rw (ap (λ u. is_seen u seen) is_s, old) (rw old at (remove_seen-is_seen s seen input))
        | inr new ↦ rw (ap (λ u. is_seen u seen) is_s, new, same) refl
      ]
  | inr differs ↦ elim (Bool-cases (is_seen t seen)) [
    | inl old ↦ rw (old, differs) (remove_seen-is_seen s seen input)
    | inr new ↦ rw (new, differs) (rw differs at (remove_seen-is_seen s (t ∷ seen) input))
  ]
]

remove_seen-Distinct : (seen input : List Bytes) → Distinct (remove_seen seen input)
unfolding is_seen remove_seen
remove_seen-Distinct seen [] = tt
remove_seen-Distinct seen (t ∷ input) = elim (Bool-cases (is_seen t seen)) [
  | inl old ↦ rw old (remove_seen-Distinct seen input)
  | inr new ↦ rw new (
    rw str_eq_refl at (remove_seen-is_seen t (t ∷ seen) input),
    remove_seen-Distinct (t ∷ seen) input,
  )
]

-- The result holds exactly the texts of the input, each of them once.
pub remove_duplicates-Distinct :
    (input : List Bytes)
    → Distinct (remove_duplicates input)
      × ((s : Bytes) → is_seen s (remove_duplicates input) ≡ is_seen s input)
unfolding is_seen remove_duplicates
remove_duplicates-Distinct input =
    (remove_seen-Distinct [] input, λ s. remove_seen-is_seen s [] input)
