-- ===== src/LogPusher/Tests.antt =====
-- Two services that take the counter of one article after each other, and a round that loses it.
use mathlib.Core.List.{Memᴰ}
use stockic_feed_api.Common.{
  ℕ, zero, suc, ◌+◌, ◌≡◌, ◌≢◌, refl, sym, ap, ◌∙◌, arith, true, false, Option, [], ◌∷◌, none, some,
  if◌then◌else◌, Bool-cases, inl, inr,
}
use stockic_feed_api.Go.Text.{Bytes, codes, split, str_eq, trim_prefix, has_prefix, after_prefix}
use stockic_feed_api.Go.Text.Laws.{str_eq→eq, str_eq_refl}
use stockic_feed_api.Stores.Minio.{Minio, Clock}
use stockic_feed_api.Stores.Redis.{Redis, Reply, value, missing, failure}
use stockic_feed_api.FeedApi.Handlers.Detail.{redis_key}
use stockic_feed_api.FeedApi.LogSync.{
  LogData, add_log, parse_key, record_count, take_count, sync_log_redis_to_minio,
}
use stockic_feed_api.LogPusher.Lost.{NothingStored, sync_log_redis_to_minio-loses}
use stockic_feed_api.LogPusher.Shared.{
  System, IsCounter, count, take_left, take_right, Reach, here, next,
}
use stockic_feed_api.LogPusher.Shared.Conserved.{balance, Reach-balance}

-- The values of all counters.
abbrev World : Type 0
World = Bytes → ℕ

abbrev set_counter : Bytes → ℕ → World → World
set_counter k n w j = if str_eq k j then n else w j

-- The text of a number is a single byte here.
abbrev reply_of : ℕ → Reply
reply_of zero = missing
reply_of (suc n) = value (suc n ∷ [])

abbrev number : Bytes → ℕ
number [] = 0
number (n ∷ s) = n

abbrev K : Bytes
K = redis_key (codes "7") (codes "u")

abbrev log : Redis World
log = record {
  ping = λ w. (true, w);
  get = λ k w. (reply_of (w k), w);
  set = λ k v ttl w. (true, w);
  exists = λ k w. (0, w);
  incr = λ k w. (true, set_counter k (w k + 1) w);
  keys = λ p w. (some (K ∷ []), w);
  get_del = λ k w. (reply_of (w k), set_counter k 0 w);
}

reply_of-value : (n : ℕ) (s : Bytes) → reply_of n ≡ value s → number s ≡ n
reply_of-value zero s e = cc
reply_of-value (suc n) s e = let written : suc n ∷ [] ≡ s = cc in ap number (sym written)

reply_of-missing : (n : ℕ) → reply_of n ≡ missing → n ≡ 0
reply_of-missing zero e = refl
reply_of-missing (suc n) e = cc

other_counter : (j k : Bytes) (n : ℕ) (w : World) → j ≢ k → set_counter j n w k ≡ w k
other_counter j k n w h = elim (Bool-cases (str_eq j k)) [
  | inl same ↦ absurd (h (str_eq→eq j k same))
  | inr differs ↦ rw differs refl
]

cleared : (k j : Bytes) (w : World) → w k ≡ 0 → set_counter k 0 w j ≡ w j
cleared k j w h = elim (Bool-cases (str_eq k j)) [
  | inl same ↦ rw same (sym (ap w (sym (str_eq→eq k j same)) ∙ h))
  | inr differs ↦ rw differs refl
]

log-IsCounter : IsCounter log (λ w. w) number
log-IsCounter = record {
  incr_adds = λ k w e. rw str_eq_refl refl;
  incr_others = λ j k w h. other_counter j k (w j + 1) w h;
  take_reads = λ k s w e. (reply_of-value (w k) s e, rw str_eq_refl refl);
  take_misses = λ k j w e. cleared k j w (reply_of-missing (w k) e);
  take_others = λ j k w h. other_counter j k 0 w h;
}

abbrev minio : Minio World
minio = record {
  put_object = λ b n d w. (true, w);
  bucket_exists = λ b w. ((true, true), w);
  make_bucket = λ b w. (true, w);
}

abbrev clock : Clock World
clock = record {
  now = λ w. (0, w);
  rfc3339 = λ t. [];
  file_stamp = λ t. [];
  log_stamp = λ t. [];
  month = λ t. [];
  local_rfc3339 = λ t. [];
  local_file_stamp = λ t. [];
  today = λ t. [];
  yesterday = λ t. [];
}

abbrev initial : System World
initial = record { world = λ k. 0; counted = 0; left = []; right = []; handed = 0 }

abbrev read_once : System World
read_once = record initial { world = (log.incr K initial.world).1; counted = 1 }

abbrev logged : LogData
logged = record { news_id = codes "7"; access_count = 1 ∷ []; last_synced = [] }

-- The left service has the count, the right one finds nothing.
abbrev taken : System World
taken = record read_once {
  world = (log.get_del K read_once.world).1;
  left = (codes "u", logged ∷ []) ∷ [];
}

abbrev taken_twice : System World
taken_twice = record taken { world = (log.get_del K taken.world).1 }

one_read : Reach log minio clock (λ g. none) number (codes "7") (codes "u") initial taken_twice
unfolding str_eq redis_key parse_key split trim_prefix has_prefix after_prefix take_count
    record_count add_log
one_read =
    next {t = taken}
      (next {t = read_once}
        (next {t = initial} here
          (count (codes "7") (codes "u") (omega arith) (omega arith) refl refl))
        (take_left (codes "7") (codes "u") taken.left taken.world (omega arith) (omega arith)
          (λ e. cc) refl refl))
      (take_right (codes "7") (codes "u") [] taken_twice.world (omega arith) (omega arith) (λ e. cc)
        refl refl)

abbrev test_balance : System World → ℕ
test_balance =
    balance log minio clock (λ g. none) (λ w. w) number log-IsCounter (codes "7") (codes "u")
      (λ w. refl) (λ b n d w. refl) (omega arith) (omega arith)

Reach-balance_example : test_balance taken_twice + 0 ≡ test_balance initial + 1
Reach-balance_example =
    Reach-balance log minio clock (λ g. none) (λ w. w) number log-IsCounter (codes "7") (codes "u")
      (λ w. refl) (λ b n d w. refl) (omega arith) (omega arith) initial taken_twice one_read

-- A store that is full: it stays empty.
abbrev full : Minio World
full = record {
  put_object = λ b n d w. (false, w);
  bucket_exists = λ b w. ((true, true), w);
  make_bucket = λ b w. (true, w);
}

abbrev no_objects : World → Bytes → Option Bytes
no_objects w name = none

full-NothingStored : NothingStored log full clock no_objects
full-NothingStored = record {
  ping_keeps = λ w. refl;
  keys_keeps = λ p w. refl;
  take_keeps = λ k w. refl;
  time_keeps = λ w. refl;
  upload_keeps = λ b n d w. refl;
}

reply_of-answers : (n : ℕ) → reply_of n ≢ failure
reply_of-answers zero e = cc
reply_of-answers (suc n) e = cc

sync_log_redis_to_minio-loses_example :
    ((sync_log_redis_to_minio log full clock (λ g. some []) (λ g. g) read_once.world).1 K ≡ 0)
    × (no_objects (sync_log_redis_to_minio log full clock (λ g. some []) (λ g. g) read_once.world).1
        ≡ no_objects read_once.world)
unfolding redis_key parse_key split trim_prefix has_prefix after_prefix
sync_log_redis_to_minio-loses_example =
    sync_log_redis_to_minio-loses log full clock (λ g. some []) (λ w. w) number log-IsCounter
      (λ k w e. reply_of-missing (w k) e) (λ k w. reply_of-answers (w k)) (λ w. refl)
      (λ b n d w. refl) no_objects full-NothingStored (λ g. g) read_once.world (K ∷ []) K
      (codes "7", codes "u") refl refl (Memᴰ.head refl) refl
