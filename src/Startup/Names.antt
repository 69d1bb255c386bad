-- ===== src/Startup/Names.antt =====
-- Where a log file is uploaded to.
use stockic_feed_api.Common.{ℕ, ◌≡◌, refl, true, ◌++◌}
use stockic_feed_api.Common.State.{State}
use stockic_feed_api.Go.Path.{base, ext, without_end}
use stockic_feed_api.Go.Path.Laws.{without_end-ext}
use stockic_feed_api.Go.Text.{Bytes, codes}
use stockic_feed_api.Stores.Minio.{Minio, Clock}
use stockic_feed_api.Startup.{
  File, not_opened, no_stat, opened, log_name, put_log, upload_log_data_to_minio,
}

module _ {W : Type 0} (files : Bytes → State W File) (minio : Minio W) (clock : Clock W)
    (bucket path : Bytes) where
  -- A successful upload of `content`: the object lies in the folder of its month, and the parts of its
  -- name around the time are the name of the file.
  abbrev pub IsStamped : Bytes → W → Type 0
  IsStamped content w =
      (t t' : ℕ) × (stem end : Bytes) × (v : W) × (stem ++ end ≡ base path)
      × ((minio.put_object bucket
            (codes "logs/"
              ++ (clock.month t'
                  ++ (codes "/" ++ (stem ++ (codes "_" ++ (clock.log_stamp t ++ end))))))
            content v)
          ≡ (true, w))

  put_log-IsStamped :
      (file : File) (w w' : W)
      → put_log files minio clock bucket path file w ≡ (true, w')
      → (content : Bytes) × (file ≡ opened content) × IsStamped content w'
  unfolding put_log log_name
  put_log-IsStamped not_opened w w' e = cc
  put_log-IsStamped no_stat w w' e = cc
  put_log-IsStamped (opened content) w w' e = (
    content,
    refl,
    (_, _, without_end (base path) (ext (base path)), ext (base path), _, without_end-ext path, e),
  )

  -- If the upload of a log file succeeds, the file was read, and what it held is stored under a name
  -- that is made of the month, the name of the file, and the time in front of the extension.
  pub upload_log_data_to_minio-IsStamped :
      (w w' : W)
      → upload_log_data_to_minio files minio clock bucket path w ≡ (true, w')
      → (content : Bytes) × ((files path w).0 ≡ opened content) × IsStamped content w'
  unfolding upload_log_data_to_minio
  upload_log_data_to_minio-IsStamped w w' e = put_log-IsStamped (files path w).0 _ w' e
