-- ===== src/FeedApi/LogSync/Stored.antt =====
-- What a round of the synchronisation stores for a user.
use stockic_feed_api.Common.{
  ℕ, ◌≡◌, ◌≢◌, refl, sym, ap, ◌∙◌, true, List, [], ◌∷◌, ◌++◌, Option, none, some, Bool-cases, inl,
  inr,
}
use stockic_feed_api.Go.Text.{Bytes, codes, split, str_eq}
use stockic_feed_api.Go.Text.Laws.{Lacks, split_first, str_eq→eq}
use stockic_feed_api.Stores.Minio.{Minio, Clock}
use stockic_feed_api.Stores.Redis.{Redis}
use stockic_feed_api.FeedApi.LogSync.{
  LogData, Grouped, collect, object_name, put_logs, upload, after_keys, after_ping,
  sync_log_redis_to_minio,
}
use stockic_feed_api.FeedApi.LogSync.Groups.{
  logs_at, reads, for_user, collect-reads, Avoids, IsDistinct, collect-IsDistinct,
}
use stockic_feed_api.FeedApi.LogSync.Orders.{VisitsAll, All-Permᴰ, IsDistinct-Permᴰ, logs_at-Permᴰ}
use stockic_feed_api.FeedApi.LogSync.Users.{IsWhole, collect-IsWhole}

-- What the code relies on in MinIO: an object that is put stays until one of its name is put.
pub record IsObjectStore {W : Type 0} (minio : Minio W) (objects : W → Bytes → Bytes → Option Bytes)
    : Type 0 where
  pub put_stores :
      (b n d : Bytes) (w : W)
      → (minio.put_object b n d w).0 ≡ true
      → objects (minio.put_object b n d w).1 b n ≡ some d
  pub put_others :
      (b n d m : Bytes) (w : W) → n ≢ m → objects (minio.put_object b n d w).1 b m ≡ objects w b m

abbrev head_part : List Bytes → Bytes
head_part [] = []
head_part (p ∷ ps) = p

module _ {W : Type 0} (log : Redis W) (minio : Minio W) (clock : Clock W)
    (marshal : List LogData → Option Bytes) (objects : W → Bytes → Bytes → Option Bytes)
    (store : IsObjectStore minio objects)
    (now_keeps : (w : W) → objects (clock.now w).1 ≡ objects w)
    (puts : (b n d : Bytes) (w : W) → (minio.put_object b n d w).0 ≡ true) where
  -- The first part of an object's name is its user.
  object_name-user :
      (k s : Bytes)
      → Lacks b'/' k
      → head_part (split (object_name minio clock marshal k s) b'/') ≡ k
  unfolding object_name
  object_name-user k s whole =
      ap head_part (split_first k (codes "detail-log-" ++ (s ++ codes ".json")) b'/' whole)

  object_name-apart :
      (j k s t : Bytes)
      → Lacks b'/' j
      → Lacks b'/' k
      → j ≢ k
      → object_name minio clock marshal j s ≢ object_name minio clock marshal k t
  object_name-apart j k s t whole_j whole_k other same = other (
      sym (object_name-user j s whole_j)
      ∙ ap (λ n. head_part (split n b'/')) same
      ∙ object_name-user k t whole_k)

  put_logs-others :
      (j k s : Bytes) (t : ℕ) (o : Option Bytes) (w : W)
      → Lacks b'/' j
      → Lacks b'/' k
      → j ≢ k
      → objects
          (put_logs minio clock marshal j t o w).1
          (codes "user-logs")
          (object_name minio clock marshal k s)
        ≡ objects w (codes "user-logs") (object_name minio clock marshal k s)
  unfolding put_logs
  put_logs-others j k s t none w whole_j whole_k other = refl
  put_logs-others j k s t (some text) w whole_j whole_k other =
      store.put_others (codes "user-logs") _ text _ w
        (object_name-apart j k (clock.file_stamp t) s whole_j whole_k other)

  upload-others :
      (g : Grouped) (k s : Bytes) (w : W)
      → IsWhole g
      → Lacks b'/' k
      → Avoids k g
      → objects
          (upload minio clock marshal g w).1
          (codes "user-logs")
          (object_name minio clock marshal k s)
        ≡ objects w (codes "user-logs") (object_name minio clock marshal k s)
  unfolding upload
  upload-others [] k s w whole whole_k avoids = refl
  upload-others ((j, ls) ∷ g) k s w (whole_j, whole) whole_k (other, avoids) =
      upload-others g k s _ whole whole_k avoids
      ∙ put_logs-others j k s _ (marshal ls) _ whole_j whole_k other
      ∙ ap (λ f. f (codes "user-logs") (object_name minio clock marshal k s)) (now_keeps w)

  -- The user has an object with the text, under a name with some time.
  abbrev pub HasLogs : Bytes → Bytes → W → Type 0
  HasLogs api_key text w =
      (t : ℕ) × (objects w (codes "user-logs")
          (object_name minio clock marshal api_key (clock.file_stamp t))
        ≡ some text)

  put_logs-HasLogs :
      (k text : Bytes) (t : ℕ) (w : W)
      → objects
          (put_logs minio clock marshal k t (some text) w).1
          (codes "user-logs")
          (object_name minio clock marshal k (clock.file_stamp t))
        ≡ some text
  unfolding put_logs
  put_logs-HasLogs k text t w = store.put_stores (codes "user-logs") _ text w (puts _ _ _ w)

  first-HasLogs :
      (g : Grouped) (k text : Bytes) (w : W) (ls : List LogData)
      → IsWhole g
      → Lacks b'/' k
      → Avoids k g
      → marshal ls ≡ some text
      → HasLogs k text (upload minio clock marshal ((k, ls) ∷ g) w).1
  unfolding upload
  first-HasLogs g k text w ls whole whole_k avoids encoded = (
    (clock.now w).0,
    upload-others g k _ _ whole whole_k avoids
        ∙ (rw encoded (put_logs-HasLogs k text (clock.now w).0 (clock.now w).1)),
  )

  later-HasLogs :
      (g : Grouped) (j k text : Bytes) (w : W) (ls : List LogData)
      → ((v : W) → HasLogs k text (upload minio clock marshal g v).1)
      → HasLogs k text (upload minio clock marshal ((j, ls) ∷ g) w).1
  unfolding upload
  later-HasLogs g j k text w ls rest = rest _

  upload-HasLogs :
      (g : Grouped) (k text : Bytes) (w : W) (d : LogData) (ds : List LogData)
      → IsWhole g
      → IsDistinct g
      → logs_at k g ≡ d ∷ ds
      → marshal (d ∷ ds) ≡ some text
      → HasLogs k text (upload minio clock marshal g w).1
  unfolding logs_at
  upload-HasLogs [] k text w d ds whole distinct found encoded = cc
  upload-HasLogs ((j, ls) ∷ g) k text w d ds (whole_j, whole) (avoids, distinct) found encoded =
      elim (Bool-cases (str_eq j k)) [
        | inl same ↦
            let all : marshal ls ≡ some text = ap marshal (rw same at found) ∙ encoded in
            rw (← str_eq→eq j k same) (first-HasLogs g j text w ls whole whole_j avoids all)
        | inr other ↦
            later-HasLogs g j k text w ls
              (λ v. upload-HasLogs g k text v d ds whole distinct (rw other at found) encoded)
      ]

  -- If Redis answers, the keys of the counters are listed and every upload succeeds, a round of the
  -- synchronisation, in whatever order it visits its map, leaves, for every user with a counter that could be read, an object in that user's
  -- folder with the JSON text of exactly the counts that were read for the user, in the order of the
  -- keys.
  pub sync_log_redis_to_minio-HasLogs :
      (visit : Grouped → Grouped) (visits_all : VisitsAll visit) (w : W) (keys : List Bytes)
      (api_key text : Bytes) (d : LogData) (ds : List LogData)
      → (log.ping w).0 ≡ true
      → (log.keys (codes "endpoint:/detail/news:*") (log.ping w).1).0 ≡ some keys
      → for_user api_key
          (reads log clock keys (log.keys (codes "endpoint:/detail/news:*") (log.ping w).1).1).0
        ≡ d ∷ ds
      → marshal (d ∷ ds) ≡ some text
      → HasLogs api_key text (sync_log_redis_to_minio log minio clock marshal visit w).1
  unfolding sync_log_redis_to_minio after_ping after_keys logs_at
  sync_log_redis_to_minio-HasLogs visit visits_all w keys api_key text d ds connected listed counted
        encoded =
      let w' = (log.keys (codes "endpoint:/detail/news:*") (log.ping w).1).1 in
      let g = (collect log clock keys [] w').0 in
      let distinct = collect-IsDistinct log clock keys [] w' tt in
      rw (connected, listed)
        (upload-HasLogs (visit g) api_key text _ d ds
          (All-Permᴰ (λ e. Lacks b'/' e.0) g (visit g) (visits_all g)
            (collect-IsWhole log clock keys [] w' tt))
          (IsDistinct-Permᴰ g (visit g) (visits_all g) distinct)
          (sym (logs_at-Permᴰ api_key g (visit g) (visits_all g) distinct)
            ∙ (collect-reads log clock api_key keys [] w').0
            ∙ counted)
          encoded)
