-- ===== src/Logs.antt =====
-- `LogMessage` of the files utils/utils.go of the four services, and what it leaves in the log file.
pub mod Uploaded
mod Tests
use stockic_feed_api.Common.{ℕ, ◌≡◌, List, [], ◌∷◌, ◌++◌, Option, none, some, ◌==◌, if◌then◌else◌}
use stockic_feed_api.Common.State.{State, ◌>>=◌, ◌>>◌, pure}
use stockic_feed_api.Go.Text.{Bytes, codes, str_eq}

-- `time.Now()` with the layout 2006-01-02 15:04:05, the output of `log`, which the start has set to the
-- log file, and the standard output.
pub record Output (W : Type 0) : Type 0 where
  pub now : State W ℕ
  pub stamp : ℕ → Bytes
  pub log : Bytes → State W (Unit {0})
  pub print : Bytes → State W (Unit {0})

-- `errs[0]`, or nil
first_error : List (Option Bytes) → Option Bytes
first_error [] = none
first_error (err ∷ errs) = err

-- `%v` of an error
shown_error : Option Bytes → Bytes
shown_error none = codes "<nil>"
shown_error (some text) = text

-- `log.Printf` with no flags ends the line where it has no end.
unfoldable pub end_line : Bytes → Bytes
end_line [] = codes "\n"
end_line (c ∷ []) = if c == b'\n' then c ∷ [] else c ∷ codes "\n"
end_line (c ∷ d ∷ s) = c ∷ end_line (d ∷ s)

unfoldable pub log_line : Bytes → Bytes → Bytes → List (Option Bytes) → Bytes
unfolding first_error shown_error end_line
log_line tag timestamp message errs = end_line (
    codes "["
    ++ (tag
        ++ (codes "] ["
            ++ (timestamp
                ++ (codes "] "
                    ++ (message ++ (codes " ERROR: " ++ shown_error (first_error errs))))))))

-- the sequence of the terminal that begins a color
color_code : Bytes → Bytes
color_code color =
    if str_eq color (codes "red")
    then codes "31m"
    else (if str_eq color (codes "green") then codes "32m" else codes "31m")

escape : Bytes
escape = 27 ∷ codes "["

unfoldable pub console_line : Bytes → Bytes → Bytes → List (Option Bytes) → Bytes
unfolding first_error shown_error color_code escape
console_line color timestamp message errs =
    escape
    ++ (color_code color
        ++ (codes " ["
            ++ (timestamp
                ++ (codes "] "
                    ++ (message
                        ++ (codes " "
                            ++ (escape
                                ++ (codes "0m ERROR: "
                                    ++ (shown_error (first_error errs) ++ codes "\n")))))))))

module _ {W : Type 0} (output : Output W) where
  unfoldable pub log_message : Bytes → Bytes → Bytes → List (Option Bytes) → State W (Unit {0})
  log_message tag message color errs = do
    t ← output.now
    output.log (log_line tag (output.stamp t) message errs)
    output.print (console_line color (output.stamp t) message errs)

  unfoldable pub feed_api_message : Bytes → Bytes → List (Option Bytes) → State W (Unit {0})
  feed_api_message = log_message (codes "FEED-API-LOG")

  -- actions and log-redis-pusher log under the name of feed-api
  unfoldable pub actions_message : Bytes → Bytes → List (Option Bytes) → State W (Unit {0})
  actions_message = log_message (codes "FEED-API-LOG")

  unfoldable pub log_redis_pusher_message : Bytes → Bytes → List (Option Bytes) → State W (Unit {0})
  log_redis_pusher_message = log_message (codes "FEED-API-LOG")

  unfoldable pub feed_curator_message : Bytes → Bytes → List (Option Bytes) → State W (Unit {0})
  feed_curator_message = log_message (codes "CURATOR_LOGS")
