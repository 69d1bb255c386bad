-- ===== src/Go/Int.antt =====
-- Go's `int` on a 64-bit machine: a value is its two's complement bit pattern, a number below 2 ^ 64.
use stockic_feed_api.Common.{
  ℕ, ◌+◌, ◌-◌, ◌*◌, ◌%◌, ◌^◌, ◌≤◌, ◌<◌, ◌≡◌, Bool, true, false, ◌||◌, Option, none, some, List,
  arith, ltb, leb, if◌then◌else◌, length, take, drop,
}

abbrev pub modulus : ℕ
modulus = 2 ^ 64

-- the least pattern of a negative number
abbrev pub sign_bit : ℕ
sign_bit = 2 ^ 63

unfoldable pub add : ℕ → ℕ → ℕ
add a b = (a + b) % modulus

unfoldable pub sub : ℕ → ℕ → ℕ
sub a b = (a + modulus - b) % modulus

unfoldable pub mul : ℕ → ℕ → ℕ
mul a b = (a * b) % modulus

abbrev pub is_negative : ℕ → Bool
is_negative a = leb sign_bit a

-- `a < b` on signed numbers
unfoldable pub less : ℕ → ℕ → Bool
less a b = ltb ((a + sign_bit) % modulus) ((b + sign_bit) % modulus)

-- `xs[i:j]`, where `none` is the run-time panic. Go allows `j` up to the capacity; the code of this
-- repository never slices beyond the length.
unfoldable pub out_of_range : ℕ → ℕ → ℕ → Bool
unfolding less
out_of_range n i j = is_negative i || less j i || less n j

unfoldable pub slice {ℓ} : {A : Type ℓ} → List A → ℕ → ℕ → Option (List A)
unfolding out_of_range
slice xs i j = if out_of_range (length xs) i j then none else some (take (j - i) (drop i xs))

pub less_nonneg : (a b : ℕ) → a < sign_bit → b < sign_bit → less a b ≡ ltb a b
unfolding less
less_nonneg a b h k = ground arith

-- A negative number is below every number that is not.
pub less_negative : (a b : ℕ) → sign_bit ≤ a → a < modulus → b < sign_bit → less a b ≡ true
unfolding less
less_negative a b h h' k = ground arith

pub mul_exact : (a b : ℕ) → a * b < sign_bit → mul a b ≡ a * b
unfolding mul
mul_exact a b h = omega arith

pub sub_one_exact : (a : ℕ) → 1 ≤ a → a < sign_bit → sub a 1 ≡ a - 1
unfolding sub
sub_one_exact a h k = omega arith

pub add_exact : (a b : ℕ) → a + b < sign_bit → add a b ≡ a + b
unfolding add
add_exact a b h = omega arith

out_of_range-eq-false : (n i j : ℕ) → i ≤ j → j ≤ n → n < sign_bit → out_of_range n i j ≡ false
unfolding out_of_range
out_of_range-eq-false n i j h k m = ground arith

out_of_range_negative : (n i j : ℕ) → sign_bit ≤ i → out_of_range n i j ≡ true
unfolding out_of_range
out_of_range_negative n i j h = ground arith

module _ {ℓ} {A : Type ℓ} (xs : List A) (i j : ℕ) where
  pub slice_in_range :
      i ≤ j → j ≤ length xs → length xs < sign_bit → slice xs i j ≡ some (take (j - i) (drop i xs))
  unfolding slice
  slice_in_range h k m = rw (out_of_range-eq-false (length xs) i j h k m)

  pub slice_negative : sign_bit ≤ i → slice xs i j ≡ none
  unfolding slice
  slice_negative h = rw (out_of_range_negative (length xs) i j h)
