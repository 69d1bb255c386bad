-- ===== src/FeedApi/Routes/Chain.antt =====
-- The choice of the mux among the routes of feed-api, as a chain of tests.
use mathlib.Core.Path.{subst}
use stockic_feed_api.Common.{
  ◌≡◌, refl, ap, ◌∙◌, Bool, true, false, ◌||◌, ◌&&◌, ◌==◌, [], ◌∷◌, ◌++◌, Option, none, arith,
  if◌then◌else◌, Bool-cases, inl, inr,
}
use stockic_feed_api.Go.Mux.{
  Routed, handled, redirected, ends_in_slash, matches, best, registered, route, or_slash,
  by_pattern,
}
use stockic_feed_api.Go.Text.{Bytes, codes, str_eq, has_prefix}
use stockic_feed_api.Go.Text.Laws.{str_eq→eq}
use stockic_feed_api.FeedApi.Routes.{
  Endpoint, ping, headlines, news_feed, discover, detail, fallback, setup_routes,
}

-- A path that lacks only the slash at the end of a route.
abbrev pub lacks_slash : Bytes → Bool
lacks_slash path =
    str_eq (codes "/api/v2/headlines") path
    || (str_eq (codes "/api/v2/newsfeed") path
        || (str_eq (codes "/api/v2/discover") path || str_eq (codes "/api/v2/detail") path))

-- The route that the prefix of a path decides.
abbrev pub by_prefix : Bytes → Endpoint
by_prefix path =
    if has_prefix path (codes "/api/v2/headlines/")
    then headlines
    else (if has_prefix path (codes "/api/v2/newsfeed/")
        then news_feed
        else (if has_prefix path (codes "/api/v2/discover/")
            then discover
            else (if has_prefix path (codes "/api/v2/detail/") then detail else fallback)))

abbrev pub chosen : Bytes → Routed Endpoint
chosen path =
    if str_eq (codes "/api/v2/ping") path
    then handled ping
    else (if lacks_slash path then redirected else handled (by_prefix path))

nil-append : (s : Bytes) → str_eq [] (s ++ codes "/") ≡ false
unfolding str_eq
nil-append [] = refl
nil-append (c ∷ s) = refl

append-nil_slash : (s : Bytes) → str_eq (s ++ codes "/") [] ≡ false
unfolding str_eq
append-nil_slash [] = refl
append-nil_slash (c ∷ s) = refl

-- A slash behind two texts does not change whether they are equal.
str_eq-slash : (s t : Bytes) → str_eq (s ++ codes "/") (t ++ codes "/") ≡ str_eq s t
unfolding str_eq
str_eq-slash [] [] = refl
str_eq-slash [] (b ∷ t) = ground (arith, nil-append t)
str_eq-slash (a ∷ s) [] = ground (arith, append-nil_slash s)
str_eq-slash (a ∷ s) (b ∷ t) = ap (λ r. a == b && r) (str_eq-slash s t)

best-by_prefix :
    (path : Bytes)
    → has_prefix path (codes "/") ≡ true
    → str_eq path (codes "/api/v2/ping") ≡ false
    → or_slash (best setup_routes path) none ≡ handled (by_prefix path)
unfolding best matches ends_in_slash setup_routes or_slash str_eq
best-by_prefix path root other = rw (root, other) (ground arith)

ends_in_slash-append : (s : Bytes) → ends_in_slash (s ++ codes "/") ≡ true
unfolding ends_in_slash str_eq
ends_in_slash-append [] = refl
ends_in_slash-append (c ∷ []) = refl
ends_in_slash-append (c ∷ d ∷ s) = ends_in_slash-append (d ∷ s)

not_ping : (path : Bytes) → str_eq (codes "/api/v2/ping") (path ++ codes "/") ≡ false
unfolding ends_in_slash str_eq
not_ping path = elim (Bool-cases (str_eq (codes "/api/v2/ping") (path ++ codes "/"))) [
  | inl same ↦
      let e = str_eq→eq (codes "/api/v2/ping") (path ++ codes "/") same in
      cc (ap ends_in_slash e, ends_in_slash-append path)
  | inr differs ↦ differs
]

-- A slash behind a path makes it a pattern exactly where only the slash was missing.
registered-slash :
    (path : Bytes) (o : Option (Bytes × Endpoint))
    → str_eq [] path ≡ false
    → or_slash o (registered setup_routes (path ++ codes "/"))
      ≡ (if lacks_slash path then redirected else or_slash o none)
unfolding registered setup_routes or_slash
registered-slash path o rooted =
    rw
      (
        not_ping path,
        str_eq-slash (codes "/api/v2/headlines") path,
        str_eq-slash (codes "/api/v2/newsfeed") path,
        str_eq-slash (codes "/api/v2/discover") path,
        str_eq-slash (codes "/api/v2/detail") path,
        str_eq-slash [] path,
        rooted,
      )
      (ground arith)

-- A path that is a pattern.
at_pattern :
    (pattern path : Bytes)
    → str_eq pattern path ≡ true
    → route setup_routes pattern ≡ chosen pattern
    → route setup_routes path ≡ chosen path
at_pattern pattern path same h =
    subst (λ p. route setup_routes p ≡ chosen p) (str_eq→eq pattern path same) h

rooted : (path : Bytes) → has_prefix path (codes "/") ≡ true → str_eq [] path ≡ false
unfolding has_prefix str_eq
rooted [] h = cc
rooted (c ∷ s) h = refl

str_eq-sym : (s t : Bytes) → str_eq s t ≡ str_eq t s
unfolding str_eq
str_eq-sym [] [] = refl
str_eq-sym [] (b ∷ t) = refl
str_eq-sym (a ∷ s) [] = refl
str_eq-sym (a ∷ s) (b ∷ t) = ground (arith, str_eq-sym s t)

unregistered :
    (path : Bytes)
    → str_eq (codes "/api/v2/ping") path ≡ false
    → str_eq (codes "/api/v2/headlines/") path ≡ false
    → str_eq (codes "/api/v2/newsfeed/") path ≡ false
    → str_eq (codes "/api/v2/discover/") path ≡ false
    → str_eq (codes "/api/v2/detail/") path ≡ false
    → str_eq (codes "/") path ≡ false
    → registered setup_routes path ≡ none
unfolding registered setup_routes
unregistered path p h n d e r = rw (p, h, n, d, e, r) refl

no_pattern-chosen :
    (path : Bytes)
    → has_prefix path (codes "/") ≡ true
    → str_eq (codes "/api/v2/ping") path ≡ false
    → str_eq (codes "/api/v2/headlines/") path ≡ false
    → str_eq (codes "/api/v2/newsfeed/") path ≡ false
    → str_eq (codes "/api/v2/discover/") path ≡ false
    → str_eq (codes "/api/v2/detail/") path ≡ false
    → str_eq (codes "/") path ≡ false
    → route setup_routes path ≡ chosen path
unfolding route by_pattern
no_pattern-chosen path root p h n d e r =
    let other : str_eq path (codes "/api/v2/ping") ≡ false =
      str_eq-sym path (codes "/api/v2/ping") ∙ p in
    rw (unregistered path p h n d e r, p)
      (registered-slash path (best setup_routes path) (rooted path root)
        ∙ ap (λ x. if lacks_slash path then redirected else x) (best-by_prefix path root other))

-- For a path that begins with a slash, the mux runs `ping` for its own path only, redirects a path that
-- lacks only the last slash of a route, and else runs the handler whose prefix the path has, or the
-- fallback.
pub route-chosen :
    (path : Bytes) → has_prefix path (codes "/") ≡ true → route setup_routes path ≡ chosen path
unfolding route by_pattern registered setup_routes best matches ends_in_slash or_slash str_eq
    has_prefix
route-chosen path root = elim (Bool-cases (str_eq (codes "/api/v2/ping") path)) [
  | inl same ↦ at_pattern (codes "/api/v2/ping") path same refl
  | inr p ↦ elim (Bool-cases (str_eq (codes "/api/v2/headlines/") path)) [
    | inl same ↦ at_pattern (codes "/api/v2/headlines/") path same refl
    | inr h ↦ elim (Bool-cases (str_eq (codes "/api/v2/newsfeed/") path)) [
      | inl same ↦ at_pattern (codes "/api/v2/newsfeed/") path same refl
      | inr n ↦ elim (Bool-cases (str_eq (codes "/api/v2/discover/") path)) [
        | inl same ↦ at_pattern (codes "/api/v2/discover/") path same refl
        | inr d ↦ elim (Bool-cases (str_eq (codes "/api/v2/detail/") path)) [
          | inl same ↦ at_pattern (codes "/api/v2/detail/") path same refl
          | inr e ↦ elim (Bool-cases (str_eq (codes "/") path)) [
            | inl same ↦ at_pattern (codes "/") path same refl
            | inr r ↦ no_pattern-chosen path root p h n d e r
          ]
        ]
      ]
    ]
  ]
]
