-- ===== src/Startup/Tests.antt =====
-- The parts of a path, and the name of an uploaded log file.
use stockic_feed_api.Common.{◌≡◌, refl, []}
use stockic_feed_api.Go.Path.{base, ext, without_end}
use stockic_feed_api.Go.Text.{codes, split, str_eq}
use stockic_feed_api.Startup.{log_name}

path_tests :
    (base (codes "/var/log/feed-api.log/") ≡ codes "feed-api.log")
    × (base [] ≡ codes ".")
    × (base (codes "//") ≡ codes "/")
    × (ext (codes "a.b/feed-api.log") ≡ codes ".log")
    × (ext (codes "a.b/log") ≡ [])
unfolding base ext split str_eq
path_tests = (refl, refl, refl, refl, refl)

name_test :
    log_name (codes "2025/01") (codes "20250131_120000") (codes "logs/feed-api.log")
    ≡ codes "logs/2025/01/feed-api_20250131_120000.log"
unfolding log_name base ext without_end split str_eq
name_test = refl
