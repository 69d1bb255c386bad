-- ===== src/Go/Process.antt =====
-- How a call ends that may end the whole process by `log.Fatalf`.
use stockic_feed_api.Common.{Bool}
use stockic_feed_api.Common.State.{State, pure}

-- `returned b` says that the call returned, and whether without an error.
pub data Ending : Type 0 where
  returned : Bool → Ending
  exited : Ending

-- The code behind a call: it runs unless the process has ended.
abbrev pub and_then : {W : Type 0} → Ending → State W Ending → State W Ending
and_then exited rest = pure exited
and_then (returned b) rest = rest
