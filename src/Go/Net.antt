-- ===== src/Go/Net.antt =====
-- `net.SplitHostPort`, as far as its host: `none` is an error.
use stockic_feed_api.Common.{
  ℕ, Bool, false, not, [], ◌∷◌, ◌++◌, Option, none, some, ◌==◌, ◌||◌, if◌then◌else◌,
}
use stockic_feed_api.Go.Text.{Bytes}

-- `strings.Contains(s, c)` for one byte
unfoldable pub has_byte : ℕ → Bytes → Bool
has_byte c [] = false
has_byte c (d ∷ s) = d == c || has_byte c s

-- The text in front of the last colon; `none` without a colon.
last_part : Bytes → Option Bytes → Bytes → Option Bytes
last_part before found [] = found
last_part before found (c ∷ s) =
    last_part (before ++ c ∷ []) (if c == b':' then some before else found) s

-- The text up to the first closing bracket, and what follows the bracket.
bracketed : Bytes → Bytes → Option (Bytes × Bytes)
bracketed before [] = none
bracketed before (c ∷ s) =
    let rest = bracketed (before ++ c ∷ []) s in if c == b']' then some (before, s) else rest

-- Brackets stand nowhere else in an accepted text.
no_bracket : Bytes → Bool
unfolding has_byte
no_bracket s = not (has_byte b'[' s || has_byte b']' s)

-- `[host]:port`: one colon behind the bracket, no further colon or bracket
after_bracket : Bytes × Bytes → Option Bytes
unfolding no_bracket
after_bracket (host, []) = none
after_bracket (host, c ∷ port) =
    if c == b':'
    then (if has_byte b':' port || has_byte b'[' host || not (no_bracket port)
        then none
        else some host)
    else none

bracket_host : Option (Bytes × Bytes) → Option Bytes
unfolding after_bracket
bracket_host none = none
bracket_host (some hp) = after_bracket hp

-- `host:port`: the host has no colon, and there is no bracket
plain_host : Bytes → Option Bytes → Option Bytes
unfolding no_bracket
plain_host s none = none
plain_host s (some host) = if has_byte b':' host || not (no_bracket s) then none else some host

first_byte : Bytes → Bytes → Option Bytes
first_byte s [] = none
first_byte s (c ∷ rest) =
    let inside = bracket_host (bracketed [] rest) in
    let plain = plain_host s (last_part [] none s) in if c == b'[' then inside else plain

unfoldable pub split_host : Bytes → Option Bytes
unfolding first_byte bracket_host bracketed plain_host last_part
split_host s = first_byte s s
