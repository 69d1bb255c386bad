-- ===== src/Logs/Tests.antt =====
-- Two messages in a log file, and its upload.
use stockic_feed_api.Common.{◌≡◌, refl, true, List, [], ◌∷◌, ◌++◌, some}
use stockic_feed_api.Common.State.{State}
use stockic_feed_api.Go.Text.{Bytes, codes, str_eq}
use stockic_feed_api.Logs.{Output, log_line, end_line, console_line}
use stockic_feed_api.Logs.Uploaded.{IsLogFile, Message, log_all, lines_of, log_all-uploaded}
use stockic_feed_api.Startup.{File, opened, upload_log_data_to_minio}
use stockic_feed_api.Startup.Names.{IsStamped}
use stockic_feed_api.Stores.Minio.{Minio, Clock}

line_tests :
    (log_line (codes "T") (codes "now") (codes "Done") [] ≡ codes "[T] [now] Done ERROR: <nil>\n")
    × (log_line (codes "T") (codes "now") (codes "Failed") (some (codes "no route\n") ∷ [])
        ≡ codes "[T] [now] Failed ERROR: no route\n")
unfolding log_line end_line
line_tests = (refl, refl)

-- Any color but green is red.
color_test : console_line (codes "blue") [] [] [] ≡ console_line (codes "red") [] [] []
unfolding console_line str_eq
color_test = refl

-- The log file, and the content of the object that was stored last.
abbrev World : Type 0
World = Bytes × Bytes

abbrev output : Output World
output = record {
  now = λ w. (0, w);
  stamp = λ t. codes "now";
  log = λ s w. (tt, (w.0 ++ s, w.1));
  print = λ s w. (tt, w);
}

abbrev files : Bytes → State World File
files path w = (opened w.0, w)

abbrev minio : Minio World
minio = record {
  put_object = λ b n d w. (true, (w.0, d));
  bucket_exists = λ b w. ((true, true), w);
  make_bucket = λ b w. (true, w);
}

abbrev clock : Clock World
clock = record {
  now = λ w. (0, w);
  rfc3339 = λ t. [];
  file_stamp = λ t. [];
  log_stamp = λ t. codes "S";
  month = λ t. codes "M";
  local_rfc3339 = λ t. [];
  local_file_stamp = λ t. [];
  today = λ t. [];
  yesterday = λ t. [];
}

abbrev path : Bytes
path = codes "a.log"

output-IsLogFile : IsLogFile output files path (λ w. w.0)
output-IsLogFile = record {
  log_appends = λ s w. refl;
  print_keeps = λ s w. refl;
  now_keeps = λ w. refl;
  open_reads = λ text w e. cc;
}

abbrev messages : List Message
messages =
    (codes "Started", codes "green", [])
    ∷ (codes "Failed", codes "red", some (codes "no route") ∷ [])
    ∷ []

abbrev start : World
start = (codes "old\n", [])

abbrev end : World
end =
    (upload_log_data_to_minio files minio clock (codes "logs") path
      (log_all output (codes "T") messages start)).1

log_all-uploaded_example :
    IsStamped files minio clock
      (codes "logs")
      path
      (codes "old\n" ++ lines_of output (codes "T") messages start)
      end
unfolding upload_log_data_to_minio
log_all-uploaded_example =
    log_all-uploaded output (codes "T") files path (λ w. w.0) output-IsLogFile minio clock
      (codes "logs") messages start end refl
