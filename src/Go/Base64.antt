-- ===== src/Go/Base64.antt =====
-- `base64.StdEncoding.EncodeToString`
use stockic_feed_api.Common.{ℕ, ◌+◌, ◌-◌, ◌*◌, ◌/◌, ◌%◌, [], ◌∷◌, if◌then◌else◌, ltb, ◌==◌}
use stockic_feed_api.Go.Text.{Bytes}

-- the character for six bits
letter : ℕ → ℕ
letter n =
    if ltb n 26
    then b'A' + n
    else (if ltb n 52
        then b'a' + (n - 26)
        else (if ltb n 62 then b'0' + (n - 52) else (if n == 62 then b'+' else b'/')))

unfoldable pub base64_encode : Bytes → Bytes
unfolding letter
base64_encode [] = []
base64_encode (a ∷ []) = letter (a / 4) ∷ letter (a % 4 * 16) ∷ b'=' ∷ b'=' ∷ []
base64_encode (a ∷ b ∷ []) =
    letter (a / 4) ∷ letter (a % 4 * 16 + b / 16) ∷ letter (b % 16 * 4) ∷ b'=' ∷ []
base64_encode (a ∷ b ∷ c ∷ s) =
    letter (a / 4)
    ∷ letter (a % 4 * 16 + b / 16)
    ∷ letter (b % 16 * 4 + c / 64)
    ∷ letter (c % 64)
    ∷ base64_encode s
