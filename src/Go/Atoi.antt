-- ===== src/Go/Atoi.antt =====
-- `strconv.Atoi`.
pub mod Laws
use stockic_feed_api.Common.{
  ℕ, ◌+◌, ◌-◌, ◌*◌, ◌%◌, List, [], ◌∷◌, Option, none, some, ltb, leb, ◌==◌, ◌||◌, if◌then◌else◌,
}
use stockic_feed_api.Go.Int.{modulus, sign_bit}
use stockic_feed_api.Go.Text.{Bytes}

-- The value of digits behind `n`; `none` is a syntax error.
scan : Bytes → ℕ → Option ℕ
scan [] n = some n
scan (c ∷ s) n =
    let rest = scan s (n * 10 + (c - b'0')) in if ltb c b'0' || ltb b'9' c then none else rest

digits : Bytes → Option ℕ
unfolding scan
digits [] = none
digits (c ∷ s) = scan (c ∷ s) 0

-- The range of a 64-bit int; `none` is a range error.
positive : Option ℕ → Option ℕ
positive none = none
positive (some n) = if ltb n sign_bit then some n else none

negative : Option ℕ → Option ℕ
negative none = none
negative (some n) = if leb n sign_bit then some ((modulus - n) % modulus) else none

-- The result is the bit pattern of the number, `none` an error.
unfoldable pub atoi : Bytes → Option ℕ
unfolding digits positive negative
atoi [] = none
atoi (c ∷ s) =
    if c == b'-'
    then negative (digits s)
    else if c == b'+'
    then positive (digits s)
    else positive (digits (c ∷ s))
