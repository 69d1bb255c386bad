-- ===== src/Go/Atoi/Laws.antt =====
-- The numbers that `atoi` returns.
use stockic_feed_api.Common.{ℕ, ◌<◌, ◌≡◌, [], ◌∷◌, Option, none, some, arith}
use stockic_feed_api.Go.Int.{modulus}
use stockic_feed_api.Go.Text.{Bytes}
use stockic_feed_api.Go.Atoi.{digits, positive, negative, atoi}

positive-lt-modulus : (o : Option ℕ) (n : ℕ) → positive o ≡ some n → n < modulus
unfolding positive
positive-lt-modulus none n h = cc
positive-lt-modulus (some m) n h = ground arith

negative-lt-modulus : (o : Option ℕ) (n : ℕ) → negative o ≡ some n → n < modulus
unfolding negative
negative-lt-modulus none n h = cc
negative-lt-modulus (some m) n h = ground arith

-- A parsed number is a 64-bit pattern.
pub atoi-lt-modulus : (s : Bytes) (n : ℕ) → atoi s ≡ some n → n < modulus
unfolding atoi
atoi-lt-modulus [] n h = cc
atoi-lt-modulus (c ∷ s) n h = ground (
  arith,
  positive-lt-modulus (digits s) n,
  negative-lt-modulus (digits s) n,
  positive-lt-modulus (digits (c ∷ s)) n,
)
