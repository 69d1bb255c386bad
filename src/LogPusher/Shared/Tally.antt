-- ===== src/LogPusher/Shared/Tally.antt =====
-- What one step does to the counts of an article and a user.
use stockic_feed_api.Common.{
  ℕ, ◌+◌, ◌≡◌, ◌≢◌, refl, sym, ap, ◌∙◌, arith, List, [], ◌∷◌, ◌++◌, Option, none, some,
  if◌then◌else◌, Bool-cases, inl, inr,
}
use stockic_feed_api.Go.Text.{Bytes, str_eq}
use stockic_feed_api.Go.Text.Laws.{Lacks, str_eq→eq, str_eq-false, str_eq_refl}
use stockic_feed_api.Stores.Minio.{Minio, Clock}
use stockic_feed_api.Stores.Redis.{Redis, Reply, value, missing, failure}
use stockic_feed_api.FeedApi.Handlers.Detail.{redis_key}
use stockic_feed_api.FeedApi.LogSync.{
  LogData, Grouped, add_log, parse_key, record_count, take_count, upload, put_logs,
}
use stockic_feed_api.FeedApi.LogSync.Keys.{parse_key-redis_key}
use stockic_feed_api.LogPusher.Shared.{IsCounter, sum, tally}

module _ {W : Type 0} (log : Redis W) (minio : Minio W) (clock : Clock W)
    (marshal : List LogData → Option Bytes) (counts : W → Bytes → ℕ) (number : Bytes → ℕ)
    (counter : IsCounter log counts number) (news_id api_key : Bytes) where
  abbrev summed : List LogData → ℕ
  summed = sum log minio clock marshal number news_id api_key

  abbrev pub tallied : Grouped → ℕ
  tallied = tally log minio clock marshal number news_id api_key

  sum-append :
      (ds : List LogData) (d : LogData)
      → summed (ds ++ d ∷ [])
        ≡ summed ds + (if str_eq d.news_id news_id then number d.access_count else 0)
  sum-append [] d = omega arith
  sum-append (e ∷ ds) d = omega (arith, sum-append ds d)

  abbrev ours : Bytes → LogData → ℕ
  ours u d =
      if str_eq u api_key
      then (if str_eq d.news_id news_id then number d.access_count else 0)
      else 0

  tally-add_log :
      (u : Bytes) (d : LogData) (g : Grouped) → tallied (add_log u d g) ≡ tallied g + ours u d
  unfolding add_log
  tally-add_log u d [] = ground arith
  tally-add_log u d ((k, ds) ∷ g) = elim (Bool-cases (str_eq k u)) [
    | inl same ↦
        let is_u : k ≡ u = str_eq→eq k u same in
        rw (is_u, str_eq_refl) (ground (arith, sum-append ds d))
    | inr differs ↦ rw differs (omega (arith, tally-add_log u d g))
  ]

  -- Two keys of counters are equal only for the same article and user.
  pub redis_key-injective :
      (n u : Bytes)
      → Lacks b'/' n
      → Lacks b'/' u
      → Lacks b'/' news_id
      → Lacks b'/' api_key
      → redis_key n u ≡ redis_key news_id api_key
      → (n ≡ news_id) × (u ≡ api_key)
  redis_key-injective n u hn hu hi hk e =
      let same : some (n, u) ≡ some (news_id, api_key) =
        sym (parse_key-redis_key n u hn hu)
        ∙ ap parse_key e
        ∙ parse_key-redis_key news_id api_key hi hk in
      (cc same, cc same)

  module _ (clock_keeps : (w : W) → counts (clock.now w).1 ≡ counts w)
      (put_keeps : (b n d : Bytes) (w : W) → counts (minio.put_object b n d w).1 ≡ counts w)
      (whole_id : Lacks b'/' news_id) (whole_key : Lacks b'/' api_key) where
    abbrev K : Bytes
    K = redis_key news_id api_key

    record_count-tally :
        (n u : Bytes) (g : Grouped) (r : Reply) (w : W)
        → Lacks b'/' n
        → Lacks b'/' u
        → r ≢ failure
        → (log.get_del (redis_key n u) w).0 ≡ r
        → (let w' = (log.get_del (redis_key n u) w).1 in
            counts (record_count log clock (n, u) g r w').1 K
              + tallied (record_count log clock (n, u) g r w').0
            ≡ counts w K + tallied g)
    unfolding record_count
    record_count-tally n u g failure w hn hu h e = absurd (h refl)
    record_count-tally n u g missing w hn hu h e = rw (counter.take_misses _ K w e) refl
    record_count-tally n u g (value s) w hn hu h e =
        let w' = (log.get_del (redis_key n u) w).1 in
        rw (clock_keeps, tally-add_log)
          (elim (Bool-cases (str_eq u api_key)) [
            | inr other ↦
                let untouched = counter.take_others (redis_key n u) K w (λ same.
                  str_eq-false other (redis_key-injective n u hn hu whole_id whole_key same).1) in
                rw (other, untouched) (omega arith)
            | inl user ↦ elim (Bool-cases (str_eq n news_id)) [
              | inr other ↦
                  let untouched = counter.take_others (redis_key n u) K w (λ same.
                    str_eq-false other (redis_key-injective n u hn hu whole_id whole_key same).0) in
                  rw (user, other, untouched) (omega arith)
              | inl id ↦
                  let key : redis_key n u ≡ K =
                    ap (λ x. redis_key x u) (str_eq→eq n news_id id)
                    ∙ ap (redis_key news_id) (str_eq→eq u api_key user) in
                  let (read, taken) = counter.take_reads (redis_key n u) s w e in
                  let read_k : number s ≡ counts w K = read ∙ ap (counts w) key in
                  let taken_k : counts w' K ≡ 0 = ap (counts w') (sym key) ∙ taken in
                  rw (user, id) (omega (arith, read_k, taken_k))
            ]
          ])

    -- A counter that is taken moves from Redis into the map.
    pub take_count-tally :
        (n u : Bytes) (g g' : Grouped) (w w' : W)
        → Lacks b'/' n
        → Lacks b'/' u
        → (log.get_del (redis_key n u) w).0 ≢ failure
        → take_count log clock (redis_key n u) g (parse_key (redis_key n u)) w ≡ (g', w')
        → counts w' K + tallied g' ≡ counts w K + tallied g
    unfolding take_count
    take_count-tally n u g g' w w' hn hu h e =
        let moved = record_count-tally n u g (log.get_del (redis_key n u) w).0 w hn hu h refl in
        let result = rw (parse_key-redis_key n u hn hu) at e in rw result at moved

    put_logs-keeps :
        (k : Bytes) (t : ℕ) (o : Option Bytes) (w : W)
        → counts (put_logs minio clock marshal k t o w).1 ≡ counts w
    unfolding put_logs
    put_logs-keeps k t none w = refl
    put_logs-keeps k t (some text) w = put_keeps _ _ _ w

    pub upload-keeps : (g : Grouped) (w : W) → counts (upload minio clock marshal g w).1 ≡ counts w
    unfolding upload
    upload-keeps [] w = refl
    upload-keeps ((k, ds) ∷ g) w =
        upload-keeps g _ ∙ put_logs-keeps k (clock.now w).0 (marshal ds) _ ∙ clock_keeps w
