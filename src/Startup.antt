-- ===== src/Startup.antt =====
-- What the files database/database.go of the four services share: a client of Redis, a client of MinIO
-- with its buckets, and the upload of a log file. Each service has a copy of these functions; the
-- modules Startup of the services use them under the services' names.
pub mod Buckets
pub mod Names
pub mod Firebase
mod Tests
use stockic_feed_api.Common.{
  ℕ, Bool, true, false, List, [], ◌∷◌, ◌++◌, Option, none, some, if◌then◌else◌,
}
use stockic_feed_api.Common.State.{State, ◌>>=◌, pure}
use stockic_feed_api.Go.Atoi.{atoi}
use stockic_feed_api.Go.Path.{base, ext, without_end}
use stockic_feed_api.Go.Text.{Bytes, codes, str_eq}
use stockic_feed_api.Stores.Minio.{Minio, Clock}

-- `db` is a 64-bit pattern.
pub record RedisOptions : Type 0 where
  pub addr : Bytes
  pub password : Bytes
  pub db : ℕ

-- The end of the start: the process runs on, is ended by `log.Fatalf`, or panics.
pub data Start : Type 0 where
  running exited panicked : Start

abbrev pub go_on : {W : Type 0} → Start → State W Start → State W Start
go_on running rest = rest
go_on exited rest = pure exited
go_on panicked rest = pure panicked

after_made : Bool → Start
after_made true = running
after_made false = exited

-- `os.Getenv` in a world is `env`; the empty text stands for a variable that is not set.
module _ {W : Type 0} (env : W → Bytes → Bytes) where
  address_or_default : Bytes → Bytes
  address_or_default address = if str_eq address [] then codes "localhost:6379" else address

  db_or_zero : Option ℕ → ℕ
  db_or_zero none = 0
  db_or_zero (some n) = n

  unfoldable pub redis_options : Bytes → Bytes → Bytes → W → RedisOptions
  unfolding address_or_default db_or_zero
  redis_options redis_address redis_db redis_password w = record {
    addr = address_or_default (env w redis_address);
    password = env w redis_password;
    db = db_or_zero (atoi (env w redis_db));
  }

  -- `none` is the nil client of a server that does not answer.
  unfoldable pub redis_init :
      {C : Type 0}
      → (RedisOptions → C)
      → (C → State W Bool)
      → Bytes
      → Bytes
      → Bytes
      → State W (Option C)
  unfolding redis_options
  redis_init new_client ping redis_address redis_db redis_password w =
      let rdb = new_client (redis_options redis_address redis_db redis_password w) in
      let (answers, w') = ping rdb w in (if answers then some rdb else none, w')

module _ {W : Type 0} where
  after_exists : Minio W → Bytes → Bool → State W Start
  unfolding after_made
  after_exists minio bucket true = pure running
  after_exists minio bucket false = do made ← minio.make_bucket bucket; pure (after_made made)

  -- The answer of a check that failed is false, and its error is only logged.
  init_bucket : Minio W → Bytes → State W Start
  unfolding after_exists
  init_bucket minio bucket = do
    answer ← minio.bucket_exists bucket
    after_exists minio bucket answer.0

  -- A client that could not be made is nil, and the first call on it panics.
  unfoldable pub init_buckets : Option (Minio W) → List Bytes → State W Start
  unfolding init_bucket
  init_buckets o [] = pure running
  init_buckets none (bucket ∷ buckets) = pure panicked
  init_buckets (some minio) (bucket ∷ buckets) = do
    start ← init_bucket minio bucket
    go_on start (init_buckets (some minio) buckets)

  unfoldable pub minio_init :
      (W → Bytes → Bytes)
      → (Bytes → Bytes → Bytes → Option (Minio W))
      → Bytes
      → Bytes
      → Bytes
      → List Bytes
      → State W Start
  minio_init env new_client endpoint access_key secret_key buckets w =
      init_buckets (new_client (env w endpoint) (env w access_key) (env w secret_key)) buckets w

-- The result of `os.Open` and `Stat` on a path.
pub data File : Type 0 where
  not_opened no_stat : File
  opened : Bytes → File

unfoldable pub log_name : Bytes → Bytes → Bytes → Bytes
log_name month timestamp path =
    let file_name = base path in
    let file_ext = ext file_name in
    codes "logs/"
    ++ (month
        ++ (codes "/"
            ++ (without_end file_name file_ext ++ (codes "_" ++ (timestamp ++ file_ext)))))

module _ {W : Type 0} (files : Bytes → State W File) (minio : Minio W) (clock : Clock W) where
  put_log : Bytes → Bytes → File → State W Bool
  put_log bucket path (opened content) = do
    t ← clock.now
    t' ← clock.now
    minio.put_object bucket (log_name (clock.month t') (clock.log_stamp t) path) content
  put_log bucket path _ = pure false

  unfoldable pub upload_log_data_to_minio : Bytes → Bytes → State W Bool
  unfolding put_log
  upload_log_data_to_minio bucket path = do file ← files path; put_log bucket path file
