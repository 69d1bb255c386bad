-- ===== src/Go/Tests.antt =====
-- Go's functions on concrete inputs.
use stockic_feed_api.Common.{◌≡◌, refl, [], ◌∷◌, none, some}
use stockic_feed_api.Go.Atoi.{atoi}
use stockic_feed_api.Go.Base64.{base64_encode}
use stockic_feed_api.Go.Text.{codes, split, trim_prefix}

atoi_tests :
    (atoi (codes "20") ≡ some 20)
    × (atoi (codes "-1") ≡ some 0xffff_ffff_ffff_ffff)
    × (atoi (codes "+7") ≡ some 7)
    × (atoi (codes "9223372036854775808") ≡ none)
    × (atoi (codes "1x") ≡ none)
    × (atoi [] ≡ none)
unfolding atoi
atoi_tests = (refl, refl, refl, refl, refl, refl)

split_tests :
    (split (codes "/api/v2/") b'/' ≡ [] ∷ codes "api" ∷ codes "v2" ∷ [] ∷ [])
    × (split [] b'/' ≡ [] ∷ [])
unfolding split
split_tests = (refl, refl)

trim_prefix_tests :
    (trim_prefix (codes "news:7") (codes "news:") ≡ codes "7")
    × (trim_prefix (codes "new") (codes "news:") ≡ codes "new")
unfolding trim_prefix
trim_prefix_tests = (refl, refl)

-- The vectors of RFC 4648.
base64_tests :
    (base64_encode (codes "foobar") ≡ codes "Zm9vYmFy")
    × (base64_encode (codes "fooba") ≡ codes "Zm9vYmE=")
    × (base64_encode (codes "f") ≡ codes "Zg==")
    × (base64_encode (251 ∷ 255 ∷ []) ≡ codes "+/8=")
unfolding base64_encode
base64_tests = (refl, refl, refl, refl)
