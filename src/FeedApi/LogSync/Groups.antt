-- ===== src/FeedApi/LogSync/Groups.antt =====
-- The logs of a user are the counts that were read for that user, in the order of reading.
use stockic_feed_api.Common.{
  ◌≡◌, ◌≢◌, refl, ap, ◌∙◌, sym, List, [], ◌∷◌, ◌++◌, append_assoc, append-nil, Option, none, some,
  arith, All, Bool-cases, inl, inr, if◌then◌else◌,
}
use stockic_feed_api.Common.State.{State, ◌>>=◌, pure}
use stockic_feed_api.Go.Text.{Bytes, str_eq}
use stockic_feed_api.Go.Text.Laws.{str_eq_iff, str_eq-false}
use stockic_feed_api.Stores.Minio.{Clock}
use stockic_feed_api.Stores.Redis.{Redis, Reply, value, missing, failure}
use stockic_feed_api.FeedApi.LogSync.{
  LogData, Grouped, add_log, parse_key, record_count, take_count, collect,
}

-- The logs of one user in the map; the empty list where the user has none.
unfoldable pub logs_at : Bytes → Grouped → List LogData
logs_at j [] = []
logs_at j ((k, ds) ∷ g) = if str_eq k j then ds else logs_at j g

pub logs_at-add_log :
    (j k : Bytes) (d : LogData) (g : Grouped)
    → logs_at j (add_log k d g) ≡ (if str_eq k j then logs_at j g ++ d ∷ [] else logs_at j g)
unfolding logs_at add_log
logs_at-add_log j k d [] = ground arith
logs_at-add_log j k d ((i, ds) ∷ g) =
    ground (arith, str_eq_iff i k, str_eq_iff i j, str_eq_iff k j, logs_at-add_log j k d g)

abbrev keep : Option (Bytes × LogData) → List (Bytes × LogData) → List (Bytes × LogData)
keep none rs = rs
keep (some r) rs = r ∷ rs

-- The reads that succeed, each with its user: a specification without the map.
module _ {W : Type 0} (log : Redis W) (clock : Clock W) where
  entry : Bytes × Bytes → Reply → State W (Option (Bytes × LogData))
  entry (news_id, api_key) (value count) = do
    t ← clock.now
    pure (
        some (
          api_key,
          record { news_id = news_id; access_count = count; last_synced = clock.rfc3339 t },
        ))
  entry _ _ = pure none

  read_one : Bytes → Option (Bytes × Bytes) → State W (Option (Bytes × LogData))
  unfolding entry
  read_one key none = pure none
  read_one key (some ids) = do reply ← log.get_del key; entry ids reply

  unfoldable pub reads : List Bytes → State W (List (Bytes × LogData))
  unfolding read_one
  reads [] = pure []
  reads (key ∷ keys) = do r ← read_one key (parse_key key); rs ← reads keys; pure (keep r rs)

unfoldable pub for_user : Bytes → List (Bytes × LogData) → List LogData
for_user j [] = []
for_user j ((k, d) ∷ rs) = if str_eq k j then d ∷ for_user j rs else for_user j rs

module _ {W : Type 0} (log : Redis W) (clock : Clock W) (j : Bytes) where
  abbrev Adds : Grouped → Grouped × W → Option (Bytes × LogData) × W → Type 0
  Adds g (g', w) (r, w') = (logs_at j g' ≡ logs_at j g ++ for_user j (keep r [])) × (w ≡ w')

  record_count-Adds :
      (ids : Bytes × Bytes) (g : Grouped) (r : Reply) (w : W)
      → Adds g (record_count log clock ids g r w) (entry log clock ids r w)
  unfolding record_count entry for_user
  record_count-Adds (news_id, api_key) g (value count) w = (
    rw logs_at-add_log (elim (Bool-cases (str_eq api_key j)) [
      | inl same ↦ rw same
      | inr other ↦ rw (other, append-nil)
    ]),
    refl,
  )
  record_count-Adds ids g missing w = (sym (append-nil _), refl)
  record_count-Adds ids g failure w = (sym (append-nil _), refl)

  take_count-Adds :
      (key : Bytes) (g : Grouped) (o : Option (Bytes × Bytes)) (w : W)
      → Adds g (take_count log clock key g o w) (read_one log clock key o w)
  unfolding take_count read_one for_user
  take_count-Adds key g none w = (sym (append-nil _), refl)
  take_count-Adds key g (some ids) w =
      record_count-Adds ids g (log.get_del key w).0 (log.get_del key w).1

  for_user-keep :
      (r : Option (Bytes × LogData)) (rs : List (Bytes × LogData))
      → for_user j (keep r rs) ≡ for_user j (keep r []) ++ for_user j rs
  unfolding for_user
  for_user-keep none rs = refl
  for_user-keep (some (k, d)) rs = ground arith

  -- One round of the synchronisation reads and deletes the same keys as a specification without
  -- the map, and the logs of each user are those that were there and then the counts read for
  -- that user, in the order of reading.
  pub collect-reads :
      (keys : List Bytes) (g : Grouped) (w : W)
      → (logs_at j (collect log clock keys g w).0
          ≡ logs_at j g ++ for_user j (reads log clock keys w).0)
        × ((collect log clock keys g w).1 ≡ (reads log clock keys w).1)
  unfolding collect reads
  collect-reads [] g w = unfold for_user in (sym (append-nil _), refl)
  collect-reads (key ∷ keys) g w =
      let (added, same) = take_count-Adds key g (parse_key key) w in
      let (g', w') = take_count log clock key g (parse_key key) w in
      let (later, same_later) = collect-reads keys g' w' in
      let (r, w'') = read_one log clock key (parse_key key) w in
      (
        later
            ∙ rw (added, same, append_assoc)
                (ap (λ rs. logs_at j g ++ rs) (sym (for_user-keep r (reads log clock keys w'').0))),
        same_later ∙ ap (λ v. (reads log clock keys v).1) same,
      )

abbrev pub Avoids : Bytes → Grouped → Type 0
Avoids k = All (λ e. e.0 ≢ k)

-- Every user has one entry, so one object is uploaded for each user.
abbrev pub IsDistinct : Grouped → Type 0
IsDistinct [] = Unit
IsDistinct ((k, ds) ∷ g) = Avoids k g × IsDistinct g

Avoids-add_log :
    (i k : Bytes) (d : LogData) (g : Grouped) → k ≢ i → Avoids i g → Avoids i (add_log k d g)
unfolding add_log
Avoids-add_log i k d [] h _ = (h, tt)
Avoids-add_log i k d ((l, ds) ∷ g) h (a, rest) = elim (Bool-cases (str_eq l k)) [
  | inl same ↦ rw same (a, rest)
  | inr other ↦ rw other (a, Avoids-add_log i k d g h rest)
]

add_log-IsDistinct :
    (k : Bytes) (d : LogData) (g : Grouped) → IsDistinct g → IsDistinct (add_log k d g)
unfolding add_log
add_log-IsDistinct k d [] _ = (tt, tt)
add_log-IsDistinct k d ((l, ds) ∷ g) (a, h) = elim (Bool-cases (str_eq l k)) [
  | inl same ↦ rw same (a, h)
  | inr other ↦
      rw other
        (Avoids-add_log l k d g (λ e. str_eq-false other (sym e)) a, add_log-IsDistinct k d g h)
]

module _ {W : Type 0} (log : Redis W) (clock : Clock W) where
  take_count-IsDistinct :
      (key : Bytes) (g : Grouped) (o : Option (Bytes × Bytes)) (w : W)
      → IsDistinct g
      → IsDistinct (take_count log clock key g o w).0
  unfolding take_count
  take_count-IsDistinct key g none w h = h
  take_count-IsDistinct key g (some ids) w h = go (log.get_del key w).0 (log.get_del key w).1
    where
      go : (r : Reply) (w' : W) → IsDistinct (record_count log clock ids g r w').0
      go (value count) w' = add_log-IsDistinct ids.1 _ g h
      go missing w' = h
      go failure w' = h

  -- No user has two entries in the map that a round of the synchronisation builds, so a round
  -- uploads one object for each user.
  pub collect-IsDistinct :
      (keys : List Bytes) (g : Grouped) (w : W)
      → IsDistinct g
      → IsDistinct (collect log clock keys g w).0
  unfolding collect
  collect-IsDistinct [] g w h = h
  collect-IsDistinct (key ∷ keys) g w h =
      collect-IsDistinct keys _ _ (take_count-IsDistinct key g (parse_key key) w h)
