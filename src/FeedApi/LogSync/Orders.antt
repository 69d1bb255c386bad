-- ===== src/FeedApi/LogSync/Orders.antt =====
-- The map of a round in the orders in which a `range` loop can visit it.
use mathlib.Core.List.{Permᴰ}
use mathlib.Core.Path.{subst}
use stockic_feed_api.Common.{
  ◌≡◌, ◌≢◌, refl, sym, ◌∙◌, List, [], ◌∷◌, All, Bool-cases, inl, inr, if◌then◌else◌,
}
use stockic_feed_api.Go.Text.{Bytes, str_eq}
use stockic_feed_api.Go.Text.Laws.{str_eq→eq}
use stockic_feed_api.FeedApi.LogSync.{LogData, Grouped}
use stockic_feed_api.FeedApi.LogSync.Groups.{logs_at, Avoids, IsDistinct}

-- What the code relies on in `range` over a map: every entry is visited once, in some order.
abbrev pub VisitsAll : (Grouped → Grouped) → Type 0
VisitsAll visit = (g : Grouped) → Permᴰ g (visit g)

pub All-Permᴰ : {A : Type 0} (P : A → Type 0) (xs ys : List A) → Permᴰ xs ys → All P xs → All P ys
All-Permᴰ P [] [] Permᴰ.nil h = h
All-Permᴰ P (x ∷ xs) (y ∷ ys) (Permᴰ.cons e r) (p, h) = (subst P e p, All-Permᴰ P xs ys r h)
All-Permᴰ P (x ∷ z ∷ xs) (z' ∷ x' ∷ ys) (Permᴰ.swap e f) (p, (q, h)) =
    (subst P f q, (subst P e p, h))
All-Permᴰ P xs ys (Permᴰ.trans {l₂ = m} r s) h = All-Permᴰ P m ys s (All-Permᴰ P xs m r h)

abbrev pub Apart : Bytes × List LogData → Bytes × List LogData → Type 0
Apart a b = b.0 ≢ a.0

pub IsDistinct-Permᴰ : (g h : Grouped) → Permᴰ g h → IsDistinct g → IsDistinct h
IsDistinct-Permᴰ [] [] Permᴰ.nil d = d
IsDistinct-Permᴰ (a ∷ g) (b ∷ h) (Permᴰ.cons e r) (apart, d) =
    (subst (λ v. Avoids v.0 h) e (All-Permᴰ (λ v. v.0 ≢ a.0) g h r apart), IsDistinct-Permᴰ g h r d)
IsDistinct-Permᴰ (a ∷ b ∷ g) (b' ∷ a' ∷ h) (Permᴰ.swap e f) ((other, apart), (apart', d)) = (
  (
    subst (Apart b') e (subst (λ v. Apart v a) f (λ same. other (sym same))),
    subst (λ v. Avoids v.0 g) f apart',
  ),
  (subst (λ v. Avoids v.0 g) e apart, d),
)
IsDistinct-Permᴰ g h (Permᴰ.trans {l₂ = m} r s) d =
    IsDistinct-Permᴰ m h s (IsDistinct-Permᴰ g m r d)

swapped :
    {A : Type 0} (j : Bytes) (a b : Bytes × A) (c : A)
    → b.0 ≢ a.0
    → (if str_eq a.0 j then a.1 else (if str_eq b.0 j then b.1 else c))
      ≡ (if str_eq b.0 j then b.1 else (if str_eq a.0 j then a.1 else c))
swapped j a b c other = elim (Bool-cases (str_eq a.0 j)) [
  | inr differs ↦ rw differs refl
  | inl same ↦ elim (Bool-cases (str_eq b.0 j)) [
    | inr differs ↦ rw (same, differs) refl
    | inl too ↦ absurd (other (str_eq→eq b.0 j too ∙ sym (str_eq→eq a.0 j same)))
  ]
]

-- Every order gives a user the same logs.
pub logs_at-Permᴰ :
    (j : Bytes) (g h : Grouped) → Permᴰ g h → IsDistinct g → logs_at j g ≡ logs_at j h
unfolding logs_at
logs_at-Permᴰ j [] [] Permᴰ.nil d = refl
logs_at-Permᴰ j (a ∷ g) (b ∷ h) (Permᴰ.cons e r) (apart, d) = rw (← e, logs_at-Permᴰ j g h r d) refl
logs_at-Permᴰ j (a ∷ b ∷ g) (b' ∷ a' ∷ h) (Permᴰ.swap e f) ((other, apart), (apart', d)) =
    rw (← e, ← f) (swapped j a b (logs_at j g) other)
logs_at-Permᴰ j g h (Permᴰ.trans {l₂ = m} r s) d =
    logs_at-Permᴰ j g m r d ∙ logs_at-Permᴰ j m h s (IsDistinct-Permᴰ g m r d)
