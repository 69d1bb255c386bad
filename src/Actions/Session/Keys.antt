-- ===== src/Actions/Session/Keys.antt =====
-- The keys that `GenerateSessionKey` makes.
use stockic_feed_api.Common.{
  ℕ, suc, zero, ◌<◌, ◌≡◌, ◌≢◌, refl, ap, arith, [], ◌∷◌, Option, none, some, All, length, get_elem?,
}
use stockic_feed_api.Common.State.{State}
use stockic_feed_api.Go.Text.{Bytes}
use stockic_feed_api.Actions.Session.{
  Generated, generated, error, panic, prepend, draw_char, draw, generate_session_key,
}

-- `c` is one of the bytes of a text.
abbrev pub Among : Bytes → ℕ → Type 0
Among charset c = (i : ℕ) × (get_elem? charset i ≡ some c)

-- A key of `n` characters of the charset, or an error; no panic.
abbrev pub IsKey : Bytes → ℕ → Generated → Type 0
IsKey charset n (generated key) = (length key ≡ n) × All (Among charset) key
IsKey charset n error = Unit
IsKey charset n panic = ⊥

get_elem?-inside : (s : Bytes) (i : ℕ) → i < length s → get_elem? s i ≢ none
get_elem?-inside [] i h = absurd (omega arith)
get_elem?-inside (c ∷ s) zero h = λ e. cc
get_elem?-inside (c ∷ s) (suc i) h = get_elem?-inside s i (omega arith)

prepend-IsKey :
    (charset : Bytes) (n i c : ℕ) (g : Generated)
    → get_elem? charset i ≡ some c
    → IsKey charset n g
    → IsKey charset (suc n) (prepend c g)
unfolding prepend
prepend-IsKey charset n i c (generated key) e (size, among) = (ap suc size, ((i, e), among))
prepend-IsKey charset n i c error e h = h
prepend-IsKey charset n i c panic e h = h

module _ {W : Type 0} (rand_int : ℕ → State W (Option ℕ))
    (below : (n i : ℕ) (world : W) → (rand_int n world).0 ≡ some i → i < n) (charset : Bytes) where
  draw_char-IsKey :
      (n i : ℕ) (rest : State W Generated) (o : Option ℕ) (world : W)
      → get_elem? charset i ≡ o
      → o ≢ none
      → IsKey charset n (rest world).0
      → IsKey charset (suc n) (draw_char rand_int rest o world).0
  unfolding draw_char
  draw_char-IsKey n i rest none world e inside h = absurd (inside refl)
  draw_char-IsKey n i rest (some c) world e inside h = prepend-IsKey charset n i c _ e h

  draw-IsKey :
      (n : ℕ) (rest : State W Generated) (drawn : Option ℕ) (world : W)
      → ((i : ℕ) → drawn ≡ some i → i < length charset)
      → ((w : W) → IsKey charset n (rest w).0)
      → IsKey charset (suc n) (draw rand_int charset rest drawn world).0
  unfolding draw
  draw-IsKey n rest none world inside h = tt
  draw-IsKey n rest (some i) world inside h =
      draw_char-IsKey n i rest (get_elem? charset i) world refl
        (get_elem?-inside charset i (inside i refl)) (h world)

  -- If the random source returns numbers below its bound, the result is an error or a key of the
  -- length asked for, with all its characters in the charset; the index never panics.
  pub generate_session_key-IsKey :
      (n : ℕ) (world : W) → IsKey charset n (generate_session_key rand_int n charset world).0
  unfolding generate_session_key
  generate_session_key-IsKey zero world = (refl, tt)
  generate_session_key-IsKey (suc n) world =
      draw-IsKey n _ _ _ (λ i e. below _ i world e) (λ w. generate_session_key-IsKey n w)
