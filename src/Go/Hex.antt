-- ===== src/Go/Hex.antt =====
-- `hex.EncodeToString`
use stockic_feed_api.Common.{ℕ, ◌+◌, ◌-◌, ◌/◌, ◌%◌, ◌≢◌, [], ◌∷◌, arith, ltb, All, if◌then◌else◌}
use stockic_feed_api.Go.Text.{Bytes}

hex_digit : ℕ → ℕ
hex_digit n = if ltb n 10 then b'0' + n else b'a' + (n - 10)

unfoldable pub hex_encode : Bytes → Bytes
unfolding hex_digit
hex_encode [] = []
hex_encode (b ∷ s) = hex_digit (b / 16) ∷ hex_digit (b % 16) ∷ hex_encode s

hex_digit-ne-slash : (n : ℕ) → hex_digit n ≢ b'/'
unfolding hex_digit
hex_digit-ne-slash n = ground arith

-- A hexadecimal text holds no slash.
pub hex_encode-Lacks : (s : Bytes) → All (λ c. c ≢ b'/') (hex_encode s)
unfolding hex_encode
hex_encode-Lacks [] = tt
hex_encode-Lacks (b ∷ s) =
    (hex_digit-ne-slash (b / 16), (hex_digit-ne-slash (b % 16), hex_encode-Lacks s))
