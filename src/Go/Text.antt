-- ===== src/Go/Text.antt =====
-- Go strings as byte lists, with the functions of package `strings` that the services call.
pub mod Laws
use Prim.Native.Char.{code}
use Prim.Native.String.{String}
use stockic_feed_api.Common.{ℕ, Bool, true, false, List, [], ◌∷◌, ◌&&◌, ◌==◌, if◌then◌else◌}

abbrev pub Bytes : Type 0
Bytes = List ℕ

-- The bytes of an ASCII literal.
abbrev pub codes : String → Bytes
codes String.[] = []
codes (String.◌∷◌ c s) = code c ∷ codes s

-- `s == t`
unfoldable pub str_eq : Bytes → Bytes → Bool
str_eq [] [] = true
str_eq (a ∷ s) (b ∷ t) = a == b && str_eq s t
str_eq _ _ = false

abbrev push_head : ℕ → List Bytes → List Bytes
push_head c [] = (c ∷ []) ∷ []
push_head c (p ∷ ps) = (c ∷ p) ∷ ps

-- `strings.Split(s, sep)` for a separator of one byte
unfoldable pub split : Bytes → ℕ → List Bytes
split [] sep = [] ∷ []
split (c ∷ s) sep = let rest = split s sep in if c == sep then [] ∷ rest else push_head c rest

-- `strings.HasPrefix(s, prefix)`
unfoldable pub has_prefix : Bytes → Bytes → Bool
has_prefix s [] = true
has_prefix [] (b ∷ t) = false
has_prefix (a ∷ s) (b ∷ t) = a == b && has_prefix s t

-- the part of `s` behind a prefix that it has
unfoldable pub after_prefix : Bytes → Bytes → Bytes
after_prefix s [] = s
after_prefix [] (b ∷ t) = []
after_prefix (a ∷ s) (b ∷ t) = after_prefix s t

-- `strings.TrimPrefix(s, prefix)`
unfoldable pub trim_prefix : Bytes → Bytes → Bytes
unfolding has_prefix after_prefix
trim_prefix s prefix = if has_prefix s prefix then after_prefix s prefix else s
