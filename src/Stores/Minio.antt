-- ===== src/Stores/Minio.antt =====
-- A MinIO client, as minio-go is called here, and the clock that names objects.
use stockic_feed_api.Common.{ℕ, Bool}
use stockic_feed_api.Common.State.{State}
use stockic_feed_api.Go.Text.{Bytes}

-- A Boolean result says that there was no error; `bucket_exists` returns its answer and that.
pub record Minio (W : Type 0) : Type 0 where
  pub put_object : Bytes → Bytes → Bytes → State W Bool
  pub bucket_exists : Bytes → State W (Bool × Bool)
  pub make_bucket : Bytes → State W Bool

-- `time.Now()` as a number of seconds, and its text in the layouts that the code asks for.
pub record Clock (W : Type 0) : Type 0 where
  pub now : State W ℕ
  -- 2006-01-02T15:04:05Z
  pub rfc3339 : ℕ → Bytes
  -- 2006-01-02T15-04-05
  pub file_stamp : ℕ → Bytes
  -- 20060102_150405, of the local time
  pub log_stamp : ℕ → Bytes
  -- 2006/01, of the local time
  pub month : ℕ → Bytes
  -- of the local time, the first two layouts again
  pub local_rfc3339 : ℕ → Bytes
  pub local_file_stamp : ℕ → Bytes
  -- 2006-01-02, of the local time and of `AddDate(0, 0, -1)`
  pub today : ℕ → Bytes
  pub yesterday : ℕ → Bytes
