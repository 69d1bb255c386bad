-- ===== src/Go/Path.antt =====
-- `filepath.Base` and `filepath.Ext` on Unix.
pub mod Laws
use stockic_feed_api.Common.{
  ℕ, ◌-◌, ◌≤◌, ◌≡◌, refl, ap, Bool, true, false, ◌&&◌, List, [], ◌∷◌, ◌++◌, arith, length, take,
  ◌==◌, if◌then◌else◌, Bool-cases, inl, inr, suc,
}
use stockic_feed_api.Go.Text.{Bytes, codes, split, str_eq}

-- `s` without the slashes at its end
trim_slashes : Bytes → Bytes
trim_slashes [] = []
trim_slashes (c ∷ s) =
    let rest = trim_slashes s in if c == b'/' && str_eq rest [] then [] else c ∷ rest

last_part : List Bytes → Bytes
last_part [] = []
last_part (p ∷ []) = p
last_part (p ∷ q ∷ ps) = last_part (q ∷ ps)

-- the last element of a path that is not empty
element : Bytes → Bytes
unfolding last_part
element [] = codes "/"
element s = last_part (split s b'/')

-- `filepath.Base(path)`
unfoldable pub base : Bytes → Bytes
unfolding element trim_slashes
base [] = codes "."
base path = element (trim_slashes path)

-- The end of a text from its last dot on.
from_last_dot : Bytes → Bytes
from_last_dot [] = []
from_last_dot (c ∷ s) =
    let rest = from_last_dot s in if str_eq rest [] then (if c == b'.' then c ∷ s else []) else rest

-- `filepath.Ext(path)`
unfoldable pub ext : Bytes → Bytes
unfolding from_last_dot last_part
ext path = from_last_dot (last_part (split path b'/'))

-- `name[:len(name)-len(end)]`
unfoldable pub without_end : Bytes → Bytes → Bytes
without_end name end = take (length name - length end) name
