-- ===== src/Go/Mux.antt =====
-- `http.ServeMux` with patterns that are paths: a pattern that ends in a slash matches every path that
-- it is a prefix of, and of the patterns that match a path the longest is chosen. Paths here are
-- clean: net/http redirects others (with an empty, "." or ".." element) to their clean form first.
use stockic_feed_api.Common.{
  Bool, false, List, [], ◌∷◌, ◌++◌, Option, none, some, length, ltb, if◌then◌else◌,
}
use stockic_feed_api.Go.Text.{Bytes, codes, str_eq, has_prefix}

-- Whether a pattern ends in a slash.
unfoldable pub ends_in_slash : Bytes → Bool
ends_in_slash [] = false
ends_in_slash (c ∷ []) = str_eq (c ∷ []) (codes "/")
ends_in_slash (c ∷ d ∷ s) = ends_in_slash (d ∷ s)

unfoldable pub matches : Bytes → Bytes → Bool
matches pattern path =
    if ends_in_slash pattern then has_prefix path pattern else str_eq path pattern

abbrev pub Table : Type 0 → Type 0
Table H = List (Bytes × H)

module _ {H : Type 0} where
  abbrev pub longer : Option (Bytes × H) → Bytes × H → Option (Bytes × H)
  longer none e = some e
  longer (some f) e = if ltb (length e.0) (length f.0) then some f else some e

  -- the longest pattern that matches
  unfoldable pub best : Table H → Bytes → Option (Bytes × H)
  best [] path = none
  best ((pattern, h) ∷ table) path =
      let rest = best table path in if matches pattern path then longer rest (pattern, h) else rest

  -- the handler of exactly this pattern
  unfoldable pub registered : Table H → Bytes → Option H
  registered [] pattern = none
  registered ((p, h) ∷ table) pattern =
      let rest = registered table pattern in if str_eq p pattern then some h else rest

-- What the mux does with a request: it calls a handler, redirects to the path with a slash behind it,
-- or answers that there is no page.
pub data Routed (H : Type 0) : Type 0 where
  handled : H → Routed H
  redirected not_found : Routed H

module _ {H : Type 0} where
  unfoldable pub or_slash : Option (Bytes × H) → Option H → Routed H
  or_slash o (some h) = redirected
  or_slash none none = not_found
  or_slash (some (pattern, h)) none = handled h

  unfoldable pub by_pattern : Table H → Bytes → Option H → Routed H
  unfolding or_slash
  by_pattern table path (some h) = handled h
  by_pattern table path none = or_slash (best table path) (registered table (path ++ codes "/"))

  unfoldable pub route : Table H → Bytes → Routed H
  unfolding by_pattern
  route table path = by_pattern table path (registered table path)
