-- ===== src/Go/Text/Laws.antt =====
-- What the string functions guarantee.
use stockic_feed_api.Common.{
  ℕ, true, false, List, [], ◌∷◌, ◌++◌, ◌≡◌, ◌≢◌, ◌↔◌, refl, arith, All, Bool-cases, inl, inr,
}
use stockic_feed_api.Go.Text.{
  Bytes, str_eq, push_head, split, has_prefix, after_prefix, trim_prefix,
}

abbrev pub Lacks : ℕ → Bytes → Type 0
Lacks b = All (λ c. c ≢ b)

pub str_eq→eq : (s t : Bytes) → str_eq s t ≡ true → s ≡ t
unfolding str_eq
str_eq→eq [] [] h = refl
str_eq→eq [] (b ∷ t) h = cc
str_eq→eq (a ∷ s) [] h = cc
str_eq→eq (a ∷ s) (b ∷ t) h = ground (arith, str_eq→eq s t)

pub str_eq_refl : (s : Bytes) → str_eq s s ≡ true
unfolding str_eq
str_eq_refl [] = refl
str_eq_refl (a ∷ s) = ground (arith, str_eq_refl s)

pub str_eq_iff : (s t : Bytes) → (str_eq s t ≡ true) ↔ (s ≡ t)
str_eq_iff s t = (str_eq→eq s t, λ e. rw e (str_eq_refl t))

pub str_eq-false : {s t : Bytes} → str_eq s t ≡ false → s ≢ t
str_eq-false {s} {t} h e = cc ((str_eq_iff s t).1 e)

pub not-str_eq : (s : Bytes) → s ≢ [] → str_eq s [] ≡ false
unfolding str_eq
not-str_eq [] h = absurd (h refl)
not-str_eq (c ∷ s) h = refl

push_head-Lacks :
    (sep c : ℕ) (ps : List Bytes) → c ≢ sep → All (Lacks sep) ps → All (Lacks sep) (push_head c ps)
push_head-Lacks sep c [] h k = ((h, tt), tt)
push_head-Lacks sep c (p ∷ ps) h k = ((h, k.0), k.1)

-- No part of a split holds the separator.
pub split-Lacks : (s : Bytes) (sep : ℕ) → All (Lacks sep) (split s sep)
unfolding split
split-Lacks [] sep = (tt, tt)
split-Lacks (c ∷ s) sep = ground (arith, split-Lacks s sep, push_head-Lacks sep c (split s sep))

-- A text that lacks the separator is one part, and one in front of a separator is the first part.
pub split_single : (s : Bytes) (sep : ℕ) → Lacks sep s → split s sep ≡ s ∷ []
unfolding split
split_single [] sep h = refl
split_single (c ∷ s) sep h = ground (arith, split_single s sep)

pub split_first : (s t : Bytes) (sep : ℕ) → Lacks sep s → split (s ++ sep ∷ t) sep ≡ s ∷ split t sep
unfolding split
split_first [] t sep h = ground arith
split_first (c ∷ s) t sep h = ground (arith, split_first s t sep)

pub has_prefix-append : (s t : Bytes) → has_prefix (s ++ t) s ≡ true
unfolding has_prefix
has_prefix-append [] t = refl
has_prefix-append (a ∷ s) t = ground (arith, has_prefix-append s t)

after_prefix-append : (s t : Bytes) → after_prefix (s ++ t) s ≡ t
unfolding after_prefix
after_prefix-append [] t = refl
after_prefix-append (a ∷ s) t = after_prefix-append s t

pub trim_prefix-append : (s t : Bytes) → trim_prefix (s ++ t) s ≡ t
unfolding trim_prefix
trim_prefix-append s t = rw has_prefix-append (after_prefix-append s t)

after_prefix-Lacks : (sep : ℕ) (s t : Bytes) → Lacks sep s → Lacks sep (after_prefix s t)
unfolding after_prefix
after_prefix-Lacks sep s [] h = h
after_prefix-Lacks sep [] (b ∷ t) h = h
after_prefix-Lacks sep (a ∷ s) (b ∷ t) h = after_prefix-Lacks sep s t h.1

pub trim_prefix-Lacks : (sep : ℕ) (s t : Bytes) → Lacks sep s → Lacks sep (trim_prefix s t)
unfolding trim_prefix
trim_prefix-Lacks sep s t h = elim (Bool-cases (has_prefix s t)) [
  | inl begins ↦ rw begins (after_prefix-Lacks sep s t h)
  | inr other ↦ rw other h
]
