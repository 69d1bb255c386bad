-- ===== src/Stores/Codec.antt =====
-- JSON text of one type: `json.Marshal` and `json.Unmarshal`; `none` is an error.
use stockic_feed_api.Common.{◌≡◌, Option, some}
use stockic_feed_api.Go.Text.{Bytes}

pub record Codec (A : Type 0) : Type 0 where
  pub marshal : A → Option Bytes
  pub unmarshal : Bytes → Option A

-- What is written is read back as it was.
abbrev pub RoundTrip : {A : Type 0} → Codec A → Type 0
RoundTrip {A} c = (a : A) (s : Bytes) → c.marshal a ≡ some s → c.unmarshal s ≡ some a
