-- ===== src/Go/Path/Laws.antt =====
-- A file name and its extension.
use stockic_feed_api.Common.{
  ◌-◌, ◌≡◌, ◌⊎◌, inl, inr, refl, sym, ap, ◌∙◌, arith, List, [], ◌∷◌, ◌++◌, append-nil, length,
  length-append, take, All, Bool-cases, ◌==◌,
}
use stockic_feed_api.Go.Path.{
  base, ext, from_last_dot, without_end, last_part, element, trim_slashes,
}
use stockic_feed_api.Go.Text.{Bytes, codes, split, str_eq}
use stockic_feed_api.Go.Text.Laws.{Lacks, split-Lacks, split_single}

take-append {ℓ} : {A : Type ℓ} (xs ys : List A) → take (length xs) (xs ++ ys) ≡ xs
take-append [] ys = refl
take-append (x ∷ xs) ys = ap (λ r. x ∷ r) (take-append xs ys)

without_end-append : (stem end : Bytes) → without_end (stem ++ end) end ≡ stem
unfolding without_end
without_end-append stem end =
    let size : length (stem ++ end) - length end ≡ length stem =
      omega (arith, length-append stem end) in
    rw size (take-append stem end)

-- The extension is an end of the name.
from_last_dot-end : (s : Bytes) → (stem : Bytes) × (s ≡ stem ++ from_last_dot s)
unfolding from_last_dot
from_last_dot-end [] = ([], refl)
from_last_dot-end (c ∷ s) = elim (Bool-cases (str_eq (from_last_dot s) [])) [
  | inr there ↦ let (stem, e) = from_last_dot-end s in (c ∷ stem, rw there (ap (λ r. c ∷ r) e))
  | inl none ↦ elim (Bool-cases (c == b'.')) [
    | inl dot ↦ ([], rw (none, dot) refl)
    | inr plain ↦ (c ∷ s, rw (none, plain) (sym (append-nil (c ∷ s))))
  ]
]

last_part-Lacks : (ps : List Bytes) → All (Lacks b'/') ps → Lacks b'/' (last_part ps)
unfolding last_part
last_part-Lacks [] h = tt
last_part-Lacks (p ∷ []) h = h.0
last_part-Lacks (p ∷ q ∷ ps) h = last_part-Lacks (q ∷ ps) h.1

-- A base name is a slash or has none.
abbrev IsName : Bytes → Type 0
IsName s = (s ≡ codes "/") ⊎ Lacks b'/' s

element-IsName : (s : Bytes) → IsName (element s)
unfolding element
element-IsName [] = inl refl
element-IsName (c ∷ s) = inr (last_part-Lacks (split (c ∷ s) b'/') (split-Lacks (c ∷ s) b'/'))

base-IsName : (path : Bytes) → IsName (base path)
unfolding base
base-IsName [] = inr (omega arith)
base-IsName (c ∷ s) = element-IsName (trim_slashes (c ∷ s))

ext_end : (name : Bytes) → IsName name → (stem : Bytes) × (name ≡ stem ++ ext name)
unfolding ext last_part split from_last_dot str_eq
ext_end name (inl slash) = rw slash (codes "/", refl)
ext_end name (inr lacks) = rw (split_single name b'/' lacks) (from_last_dot-end name)

-- A name without its extension, and the extension, are the name again.
pub without_end-ext :
    (path : Bytes) → without_end (base path) (ext (base path)) ++ ext (base path) ≡ base path
without_end-ext path =
    let (stem, e) = ext_end (base path) (base-IsName path) in
    ap (λ n. without_end n (ext (base path)) ++ ext (base path)) e
    ∙ ap (λ n. n ++ ext (base path)) (without_end-append stem (ext (base path)))
    ∙ sym e
