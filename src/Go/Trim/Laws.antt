-- ===== src/Go/Trim/Laws.antt =====
-- Texts that `strings.TrimSpace` leaves as they are.
use mathlib.Core.List.{reverse, reverse-cons, reverse-reverse}
use stockic_feed_api.Common.{
  ℕ, ◌≡◌, refl, ◌∙◌, Bool, true, not, List, [], ◌∷◌, ◌++◌, ◌==◌, ◌&&◌, arith,
}
use stockic_feed_api.Go.Text.{Bytes, has_prefix}
use stockic_feed_api.Go.Trim.{spaces, ends_of_spaces, width, skip, trim_space}

-- No space at either end.
abbrev pub IsTrimmed : Bytes → Type 0
IsTrimmed s = (width spaces s ≡ 0) × (width ends_of_spaces (reverse s) ≡ 0)

skip_none : (table : List Bytes) (s : Bytes) → width table s ≡ 0 → skip table 0 s ≡ s
unfolding skip
skip_none table [] h = refl
skip_none table (c ∷ s) h = rw (h, skip) refl

pub trim_space-IsTrimmed : (s : Bytes) → IsTrimmed s → trim_space s ≡ s
unfolding trim_space
trim_space-IsTrimmed s (front, back) =
    rw (skip_none spaces s front, skip_none ends_of_spaces (reverse s) back) (reverse-reverse s)

-- Whether a byte is in no text of a table.
abbrev avoids : ℕ → Bytes → Bool
avoids b [] = true
avoids b (c ∷ s) = not (c == b) && avoids b s

abbrev all_avoid : ℕ → List Bytes → Bool
all_avoid b [] = true
all_avoid b (s ∷ table) = avoids b s && all_avoid b table

-- A byte that a text lacks ends what can be compared with it.
has_prefix-barrier :
    (s t space : Bytes) (b : ℕ)
    → avoids b space ≡ true
    → has_prefix (s ++ b ∷ t) space ≡ has_prefix s space
unfolding has_prefix
has_prefix-barrier [] t [] b lacks = refl
has_prefix-barrier (c ∷ s) t [] b lacks = refl
has_prefix-barrier [] t (x ∷ space) b lacks = ground arith
has_prefix-barrier (c ∷ s) t (x ∷ space) b lacks = ground (arith, has_prefix-barrier s t space b)

width-barrier :
    (s t : Bytes) (table : List Bytes) (b : ℕ)
    → all_avoid b table ≡ true
    → width table (s ++ b ∷ t) ≡ width table s
unfolding width
width-barrier s t [] b lacks = refl
width-barrier s t (space ∷ table) b lacks =
    ground (arith, has_prefix-barrier s t space b, width-barrier s t table b)

-- A star in front of a text without spaces at its ends.
pub star-IsTrimmed : (s : Bytes) → IsTrimmed s → IsTrimmed (b'*' ∷ s)
unfolding width has_prefix
star-IsTrimmed s (front, back) =
    (refl, rw reverse-cons (width-barrier (reverse s) [] ends_of_spaces b'*' refl ∙ back))
