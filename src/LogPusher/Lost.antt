-- ===== src/LogPusher/Lost.antt =====
-- A round of the synchronisation whose uploads fail.
use mathlib.Core.List.{Memᴰ}
use stockic_feed_api.Common.{
  ℕ, ◌≡◌, ◌≢◌, refl, ap, ◌∙◌, true, List, [], ◌∷◌, Option, none, some, Bool-cases, inl, inr,
}
use stockic_feed_api.Go.Text.{Bytes, codes, str_eq}
use stockic_feed_api.Go.Text.Laws.{str_eq→eq, str_eq-false}
use stockic_feed_api.Stores.Minio.{Minio, Clock}
use stockic_feed_api.Stores.Redis.{Redis, Reply, value, missing, failure}
use stockic_feed_api.FeedApi.LogSync.{
  LogData, Grouped, parse_key, record_count, take_count, collect, put_logs, upload, after_keys,
  after_ping, sync_log_redis_to_minio,
}
use stockic_feed_api.LogPusher.Shared.{IsCounter}

module _ {W : Type 0} (log : Redis W) (minio : Minio W) (clock : Clock W)
    (marshal : List LogData → Option Bytes) (counts : W → Bytes → ℕ) (number : Bytes → ℕ)
    (counter : IsCounter log counts number)
    (missing_zero : (k : Bytes) (w : W) → (log.get_del k w).0 ≡ missing → counts w k ≡ 0)
    (answers : (k : Bytes) (w : W) → (log.get_del k w).0 ≢ failure)
    (now_keeps : (w : W) → counts (clock.now w).1 ≡ counts w)
    (put_keeps : (b n d : Bytes) (w : W) → counts (minio.put_object b n d w).1 ≡ counts w) where
  -- A counter that was taken is 0.
  taken :
      (k : Bytes) (w : W) (r : Reply) → (log.get_del k w).0 ≡ r → counts (log.get_del k w).1 k ≡ 0
  taken k w (value s) e = (counter.take_reads k s w e).1
  taken k w missing e = counter.take_misses k k w e ∙ missing_zero k w e
  taken k w failure e = absurd (answers k w e)

  get_del-zero : (j k : Bytes) (w : W) → counts w k ≡ 0 → counts (log.get_del j w).1 k ≡ 0
  get_del-zero j k w zero_k = elim (Bool-cases (str_eq j k)) [
    | inl same ↦ rw (← str_eq→eq j k same) (taken j w _ refl)
    | inr other ↦ counter.take_others j k w (str_eq-false other) ∙ zero_k
  ]

  record_count-counts :
      (ids : Bytes × Bytes) (g : Grouped) (r : Reply) (w : W)
      → counts (record_count log clock ids g r w).1 ≡ counts w
  unfolding record_count
  record_count-counts ids g (value s) w = now_keeps w
  record_count-counts ids g missing w = refl
  record_count-counts ids g failure w = refl

  take_count-zero :
      (j k : Bytes) (g : Grouped) (o : Option (Bytes × Bytes)) (w : W)
      → counts w k ≡ 0
      → counts (take_count log clock j g o w).1 k ≡ 0
  unfolding take_count
  take_count-zero j k g none w zero_k = zero_k
  take_count-zero j k g (some ids) w zero_k =
      ap (λ f. f k) (record_count-counts ids g _ _) ∙ get_del-zero j k w zero_k

  take_count-takes :
      (k : Bytes) (g : Grouped) (ids : Bytes × Bytes) (w : W)
      → counts (take_count log clock k g (some ids) w).1 k ≡ 0
  unfolding take_count
  take_count-takes k g ids w = ap (λ f. f k) (record_count-counts ids g _ _) ∙ taken k w _ refl

  collect-zero :
      (keys : List Bytes) (k : Bytes) (g : Grouped) (w : W)
      → counts w k ≡ 0
      → counts (collect log clock keys g w).1 k ≡ 0
  unfolding collect
  collect-zero [] k g w zero_k = zero_k
  collect-zero (j ∷ keys) k g w zero_k =
      collect-zero keys k _ _ (take_count-zero j k g (parse_key j) w zero_k)

  collect-takes :
      (keys : List Bytes) (k : Bytes) (ids : Bytes × Bytes) (g : Grouped) (w : W)
      → Memᴰ k keys
      → parse_key k ≡ some ids
      → counts (collect log clock keys g w).1 k ≡ 0
  unfolding collect
  collect-takes [] k ids g w m valid = elim m [ ]
  collect-takes (j ∷ keys) k ids g w (Memᴰ.head e) valid =
      collect-zero keys k _ _ (rw (← e, valid) (take_count-takes k g ids w))
  collect-takes (j ∷ keys) k ids g w (Memᴰ.tail m) valid = collect-takes keys k ids _ _ m valid

  put_logs-counts :
      (k : Bytes) (t : ℕ) (o : Option Bytes) (w : W)
      → counts (put_logs minio clock marshal k t o w).1 ≡ counts w
  unfolding put_logs
  put_logs-counts k t none w = refl
  put_logs-counts k t (some text) w = put_keeps _ _ _ w

  upload-counts : (g : Grouped) (w : W) → counts (upload minio clock marshal g w).1 ≡ counts w
  unfolding upload
  upload-counts [] w = refl
  upload-counts ((k, ls) ∷ g) w =
      upload-counts g _ ∙ put_logs-counts k _ (marshal ls) _ ∙ now_keeps w

-- Nothing that a round calls changes the objects: above all, no upload succeeds.
pub record NothingStored {W V : Type 0} (log : Redis W) (minio : Minio W) (clock : Clock W)
    (objects : W → V) : Type 0 where
  pub ping_keeps : (w : W) → objects (log.ping w).1 ≡ objects w
  pub keys_keeps : (p : Bytes) (w : W) → objects (log.keys p w).1 ≡ objects w
  pub take_keeps : (k : Bytes) (w : W) → objects (log.get_del k w).1 ≡ objects w
  pub time_keeps : (w : W) → objects (clock.now w).1 ≡ objects w
  pub upload_keeps : (b n d : Bytes) (w : W) → objects (minio.put_object b n d w).1 ≡ objects w

module _ {W V : Type 0} (log : Redis W) (minio : Minio W) (clock : Clock W)
    (marshal : List LogData → Option Bytes) (objects : W → V)
    (stuck : NothingStored log minio clock objects) where
  record_count-objects :
      (ids : Bytes × Bytes) (g : Grouped) (r : Reply) (w : W)
      → objects (record_count log clock ids g r w).1 ≡ objects w
  unfolding record_count
  record_count-objects ids g (value s) w = stuck.time_keeps w
  record_count-objects ids g missing w = refl
  record_count-objects ids g failure w = refl

  take_count-objects :
      (k : Bytes) (g : Grouped) (o : Option (Bytes × Bytes)) (w : W)
      → objects (take_count log clock k g o w).1 ≡ objects w
  unfolding take_count
  take_count-objects k g none w = refl
  take_count-objects k g (some ids) w = record_count-objects ids g _ _ ∙ stuck.take_keeps k w

  collect-objects :
      (keys : List Bytes) (g : Grouped) (w : W) → objects (collect log clock keys g w).1 ≡ objects w
  unfolding collect
  collect-objects [] g w = refl
  collect-objects (k ∷ keys) g w = collect-objects keys _ _ ∙ take_count-objects k g (parse_key k) w

  put_logs-objects :
      (k : Bytes) (t : ℕ) (o : Option Bytes) (w : W)
      → objects (put_logs minio clock marshal k t o w).1 ≡ objects w
  unfolding put_logs
  put_logs-objects k t none w = refl
  put_logs-objects k t (some text) w = stuck.upload_keeps _ _ _ w

  upload-objects : (g : Grouped) (w : W) → objects (upload minio clock marshal g w).1 ≡ objects w
  unfolding upload
  upload-objects [] w = refl
  upload-objects ((k, ls) ∷ g) w =
      upload-objects g _ ∙ put_logs-objects k _ (marshal ls) _ ∙ stuck.time_keeps w

module _ {W V : Type 0} (log : Redis W) (minio : Minio W) (clock : Clock W)
    (marshal : List LogData → Option Bytes) (counts : W → Bytes → ℕ) (number : Bytes → ℕ)
    (counter : IsCounter log counts number)
    (missing_zero : (k : Bytes) (w : W) → (log.get_del k w).0 ≡ missing → counts w k ≡ 0)
    (answers : (k : Bytes) (w : W) → (log.get_del k w).0 ≢ failure)
    (now_keeps : (w : W) → counts (clock.now w).1 ≡ counts w)
    (put_keeps : (b n d : Bytes) (w : W) → counts (minio.put_object b n d w).1 ≡ counts w)
    (objects : W → V) (stuck : NothingStored log minio clock objects) where
  -- If Redis answers and no upload succeeds, a round of the synchronisation still sets every counter
  -- to 0 whose key was listed and names an article and a user, and changes no object: the counts are
  -- lost.
  pub sync_log_redis_to_minio-loses :
      (visit : Grouped → Grouped) (w : W) (keys : List Bytes) (k : Bytes) (ids : Bytes × Bytes)
      → (log.ping w).0 ≡ true
      → (log.keys (codes "endpoint:/detail/news:*") (log.ping w).1).0 ≡ some keys
      → Memᴰ k keys
      → parse_key k ≡ some ids
      → (counts (sync_log_redis_to_minio log minio clock marshal visit w).1 k ≡ 0)
        × (objects (sync_log_redis_to_minio log minio clock marshal visit w).1 ≡ objects w)
  unfolding sync_log_redis_to_minio after_ping after_keys
  sync_log_redis_to_minio-loses visit w keys k ids connected listed there valid =
      let listing = log.keys (codes "endpoint:/detail/news:*") (log.ping w).1 in
      let g = collect log clock keys [] listing.1 in
      rw (connected, listed)
        (
          ap (λ f. f k)
                (upload-counts log minio clock marshal counts number counter missing_zero answers
                  now_keeps put_keeps (visit g.0) g.1)
              ∙ collect-takes log minio clock marshal counts number counter missing_zero answers
                  now_keeps put_keeps keys k ids [] listing.1 there valid,
          upload-objects log minio clock marshal objects stuck (visit g.0) g.1
              ∙ collect-objects log minio clock marshal objects stuck keys [] listing.1
              ∙ stuck.keys_keeps _ _
              ∙ stuck.ping_keeps w,
        )
