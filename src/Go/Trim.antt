-- ===== src/Go/Trim.antt =====
-- `strings.TrimSpace`, on the UTF-8 encodings of the characters that `unicode.IsSpace` accepts.
pub mod Laws
use mathlib.Core.List.{reverse}
use stockic_feed_api.Common.{ℕ, zero, suc, List, [], ◌∷◌, length, map, if◌then◌else◌}
use stockic_feed_api.Go.Text.{Bytes, has_prefix}

-- U+0009 to U+000D, U+0020, U+0085, U+00A0, U+1680, U+2000 to U+200A, U+2028, U+2029, U+202F, U+205F
-- and U+3000
abbrev pub spaces : List Bytes
spaces =
    (9 ∷ [])
    ∷ (10 ∷ [])
    ∷ (11 ∷ [])
    ∷ (12 ∷ [])
    ∷ (13 ∷ [])
    ∷ (32 ∷ [])
    ∷ (194 ∷ 133 ∷ [])
    ∷ (194 ∷ 160 ∷ [])
    ∷ (225 ∷ 154 ∷ 128 ∷ [])
    ∷ (226 ∷ 128 ∷ 128 ∷ [])
    ∷ (226 ∷ 128 ∷ 129 ∷ [])
    ∷ (226 ∷ 128 ∷ 130 ∷ [])
    ∷ (226 ∷ 128 ∷ 131 ∷ [])
    ∷ (226 ∷ 128 ∷ 132 ∷ [])
    ∷ (226 ∷ 128 ∷ 133 ∷ [])
    ∷ (226 ∷ 128 ∷ 134 ∷ [])
    ∷ (226 ∷ 128 ∷ 135 ∷ [])
    ∷ (226 ∷ 128 ∷ 136 ∷ [])
    ∷ (226 ∷ 128 ∷ 137 ∷ [])
    ∷ (226 ∷ 128 ∷ 138 ∷ [])
    ∷ (226 ∷ 128 ∷ 168 ∷ [])
    ∷ (226 ∷ 128 ∷ 169 ∷ [])
    ∷ (226 ∷ 128 ∷ 175 ∷ [])
    ∷ (226 ∷ 129 ∷ 159 ∷ [])
    ∷ (227 ∷ 128 ∷ 128 ∷ [])
    ∷ []

abbrev pub ends_of_spaces : List Bytes
ends_of_spaces = map reverse spaces

-- The length of the first text of the table that `s` begins with, or 0.
unfoldable pub width : List Bytes → Bytes → ℕ
width [] s = 0
width (space ∷ table) s =
    let rest = width table s in if has_prefix s space then length space else rest

-- `s` without its first `n` bytes and the spaces behind them
unfoldable pub skip : List Bytes → ℕ → Bytes → Bytes
skip table n [] = []
skip table (suc n) (c ∷ s) = skip table n s
skip table zero (c ∷ s) = elim (width table (c ∷ s)) [ zero ↦ c ∷ s | suc n ↦ skip table n s ]

unfoldable pub trim_space : Bytes → Bytes
trim_space s = reverse (skip ends_of_spaces 0 (reverse (skip spaces 0 s)))
