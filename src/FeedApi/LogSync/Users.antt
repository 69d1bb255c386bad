-- ===== src/FeedApi/LogSync/Users.antt =====
-- The API keys that a round of the synchronisation groups by can stand in the name of an object.
use stockic_feed_api.Common.{
  Bool, true, false, ltb, length, if◌then◌else◌, List, [], ◌∷◌, Option, none, some, All, Bool-cases,
  inl, inr,
}
use stockic_feed_api.Go.Text.{Bytes, codes, str_eq, split, trim_prefix}
use stockic_feed_api.Go.Text.Laws.{Lacks, split-Lacks, trim_prefix-Lacks}
use stockic_feed_api.Stores.Minio.{Clock}
use stockic_feed_api.Stores.Redis.{Redis, Reply, value, missing, failure}
use stockic_feed_api.FeedApi.LogSync.{
  LogData, Grouped, add_log, key_parts, parse_key, record_count, take_count, collect,
}

-- No API key of the map holds a slash.
abbrev pub IsWhole : Grouped → Type 0
IsWhole = All (λ e. Lacks b'/' e.0)

-- The API key of an id pair holds no slash.
abbrev WholeUser : Option (Bytes × Bytes) → Type 0
WholeUser none = Unit {0}
WholeUser (some (news_id, api_key)) = Lacks b'/' api_key

guarded-WholeUser :
    (b : Bool) (o : Option (Bytes × Bytes)) → WholeUser o → WholeUser (if b then none else o)
guarded-WholeUser true o h = tt
guarded-WholeUser false o h = h

key_parts-WholeUser : (parts : List Bytes) → All (Lacks b'/') parts → WholeUser (key_parts parts)
unfolding key_parts
key_parts-WholeUser [] h = tt
key_parts-WholeUser (a ∷ []) h = tt
key_parts-WholeUser (a ∷ b ∷ []) h = tt
key_parts-WholeUser (a ∷ b ∷ c ∷ []) h = tt
key_parts-WholeUser (a ∷ b ∷ c ∷ d ∷ parts) h =
    guarded-WholeUser (ltb (length (a ∷ b ∷ c ∷ d ∷ parts)) 4)
      (some (trim_prefix c (codes "news:"), trim_prefix d (codes "user:")))
      (trim_prefix-Lacks b'/' d (codes "user:") h.1.1.1.0)

parse_key-WholeUser : (key : Bytes) → WholeUser (parse_key key)
unfolding parse_key
parse_key-WholeUser key = key_parts-WholeUser (split key b'/') (split-Lacks key b'/')

add_log-IsWhole :
    (k : Bytes) (d : LogData) (g : Grouped) → Lacks b'/' k → IsWhole g → IsWhole (add_log k d g)
unfolding add_log
add_log-IsWhole k d [] h _ = (h, tt)
add_log-IsWhole k d ((l, ds) ∷ g) h (first, rest) = elim (Bool-cases (str_eq l k)) [
  | inl same ↦ rw same (first, rest)
  | inr other ↦ rw other (first, add_log-IsWhole k d g h rest)
]

module _ {W : Type 0} (log : Redis W) (clock : Clock W) where
  record_count-IsWhole :
      (ids : Bytes × Bytes) (g : Grouped) (r : Reply) (w : W)
      → Lacks b'/' ids.1
      → IsWhole g
      → IsWhole (record_count log clock ids g r w).0
  unfolding record_count
  record_count-IsWhole ids g (value count) w h whole = add_log-IsWhole ids.1 _ g h whole
  record_count-IsWhole ids g missing w h whole = whole
  record_count-IsWhole ids g failure w h whole = whole

  take_count-IsWhole :
      (key : Bytes) (g : Grouped) (o : Option (Bytes × Bytes)) (w : W)
      → WholeUser o
      → IsWhole g
      → IsWhole (take_count log clock key g o w).0
  unfolding take_count
  take_count-IsWhole key g none w h whole = whole
  take_count-IsWhole key g (some ids) w h whole =
      record_count-IsWhole ids g (log.get_del key w).0 (log.get_del key w).1 h whole

  pub collect-IsWhole :
      (keys : List Bytes) (g : Grouped) (w : W) → IsWhole g → IsWhole (collect log clock keys g w).0
  unfolding collect
  collect-IsWhole [] g w h = h
  collect-IsWhole (key ∷ keys) g w h =
      collect-IsWhole keys _ _
        (take_count-IsWhole key g (parse_key key) w (parse_key-WholeUser key) h)
