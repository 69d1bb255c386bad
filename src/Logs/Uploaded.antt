-- ===== src/Logs/Uploaded.antt =====
-- What was logged is in the object that the upload of the log file stores.
use stockic_feed_api.Common.{
  ◌≡◌, refl, sym, ap, ◌∙◌, true, List, [], ◌∷◌, ◌++◌, append_assoc, append-nil, Option,
}
use stockic_feed_api.Common.State.{State}
use stockic_feed_api.Go.Text.{Bytes}
use stockic_feed_api.Logs.{Output, log_line, log_message}
use stockic_feed_api.Startup.{File, opened, upload_log_data_to_minio}
use stockic_feed_api.Startup.Names.{IsStamped, upload_log_data_to_minio-IsStamped}
use stockic_feed_api.Stores.Minio.{Minio, Clock}

-- What the code relies on in the file system: `log` appends to the log file, and opening it reads it.
pub record IsLogFile {W : Type 0} (output : Output W) (files : Bytes → State W File) (path : Bytes)
    (content : W → Bytes) : Type 0 where
  pub log_appends : (s : Bytes) (w : W) → content (output.log s w).1 ≡ content w ++ s
  pub print_keeps : (s : Bytes) (w : W) → content (output.print s w).1 ≡ content w
  pub now_keeps : (w : W) → content (output.now w).1 ≡ content w
  pub open_reads : (text : Bytes) (w : W) → (files path w).0 ≡ opened text → content w ≡ text

-- A message with its color and its errors.
abbrev pub Message : Type 0
Message = Bytes × Bytes × List (Option Bytes)

module _ {W : Type 0} (output : Output W) (tag : Bytes) where
  -- Messages that are logged one after the other, and their lines.
  pub log_all : List Message → W → W
  log_all [] w = w
  log_all ((message, color, errs) ∷ more) w =
      log_all more (log_message output tag message color errs w).1

  pub lines_of : List Message → W → Bytes
  lines_of [] w = []
  lines_of ((message, color, errs) ∷ more) w =
      log_line tag (output.stamp (output.now w).0) message errs
      ++ lines_of more (log_message output tag message color errs w).1

  module _ (files : Bytes → State W File) (path : Bytes) (content : W → Bytes)
      (log_file : IsLogFile output files path content) where
    log_message-content :
        (message color : Bytes) (errs : List (Option Bytes)) (w : W)
        → content (log_message output tag message color errs w).1
          ≡ content w ++ log_line tag (output.stamp (output.now w).0) message errs
    unfolding log_message
    log_message-content message color errs w =
        log_file.print_keeps _ _
        ∙ log_file.log_appends _ _
        ∙ ap (λ c. c ++ log_line tag (output.stamp (output.now w).0) message errs)
            (log_file.now_keeps w)

    log_all-content :
        (messages : List Message) (w : W)
        → content (log_all messages w) ≡ content w ++ lines_of messages w
    unfolding log_all lines_of
    log_all-content [] w = rw append-nil refl
    log_all-content ((message, color, errs) ∷ more) w =
        let logged = (log_message output tag message color errs w).1 in
        log_all-content more logged
        ∙ ap (λ c. c ++ lines_of more logged) (log_message-content message color errs w)
        ∙ append_assoc (content w) _ _

    -- If an upload of the log file succeeds after any messages, the object that it stores, under the name
    -- with the month and the time, has what the file held before and then the line of every message,
    -- once and in order.
    pub log_all-uploaded :
        (minio : Minio W) (clock : Clock W) (bucket : Bytes) (messages : List Message) (w w' : W)
        → upload_log_data_to_minio files minio clock bucket path (log_all messages w) ≡ (true, w')
        → IsStamped files minio clock bucket path (content w ++ lines_of messages w) w'
    log_all-uploaded minio clock bucket messages w w' e =
        let (text, read, stamped) =
          upload_log_data_to_minio-IsStamped files minio clock bucket path _ w' e in
        rw (sym (log_all-content messages w) ∙ log_file.open_reads text _ read) stamped
