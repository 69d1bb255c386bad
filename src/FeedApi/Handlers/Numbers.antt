-- ===== src/FeedApi/Handlers/Numbers.antt =====
-- The numbers that the handlers take from a path.
use stockic_feed_api.Common.{
  ℕ, suc, ◌≤◌, ◌<◌, ◌≡◌, Option, none, some, List, [], ◌∷◌, arith, length, get_elem?, zero, ltb,
  false, le→ltb,
}
use stockic_feed_api.Go.Atoi.{atoi}
use stockic_feed_api.Go.Atoi.Laws.{atoi-lt-modulus}
use stockic_feed_api.Go.Int
use stockic_feed_api.Go.Int.{sign_bit, modulus}
use stockic_feed_api.Go.Text.{Bytes}
use stockic_feed_api.FeedApi.Handlers.Base.{at_least_one, positive_number}

at_least_one_bounds :
    (o : Option ℕ) (n : ℕ)
    → ((m : ℕ) → o ≡ some m → m < modulus)
    → at_least_one o ≡ some n
    → (1 ≤ n) × (n < sign_bit)
unfolding at_least_one Int.less
at_least_one_bounds none n small h = cc
at_least_one_bounds (some m) n small h = ground (arith, small m)

-- A number that a handler accepts is positive as a signed 64-bit number.
pub positive_number_bounds :
    (s : Bytes) (n : ℕ) → positive_number s ≡ some n → (1 ≤ n) × (n < sign_bit)
unfolding positive_number
positive_number_bounds s n h = at_least_one_bounds (atoi s) n (atoi-lt-modulus s) h

pub get_elem?-lt {ℓ} :
    {A : Type ℓ} (xs : List A) (i : ℕ) {x : A} → get_elem? xs i ≡ some x → i < length xs
get_elem?-lt [] i h = cc
get_elem?-lt (x ∷ xs) zero h = omega arith
get_elem?-lt (x ∷ xs) (suc i) h = omega (arith, get_elem?-lt xs i h)

-- The guard on the number of parts lets a path through that has the part asked for.
pub guard_passes {ℓ} :
    {A : Type ℓ} (xs : List A) (i : ℕ) {x : A}
    → get_elem? xs i ≡ some x
    → ltb (length xs) (suc i) ≡ false
guard_passes xs i h = le→ltb (length xs) (suc i) (get_elem?-lt xs i h)
