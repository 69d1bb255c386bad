-- ===== src/Startup/Buckets.antt =====
-- After a start that runs on, the buckets are there.
use stockic_feed_api.Common.{◌≡◌, refl, Bool, true, false, List, [], ◌∷◌, Option, some, All}
use stockic_feed_api.Common.State.{State}
use stockic_feed_api.Go.Text.{Bytes}
use stockic_feed_api.Stores.Minio.{Minio}
use stockic_feed_api.Startup.{
  Start, running, exited, panicked, go_on, after_made, after_exists, init_bucket, init_buckets,
  minio_init,
}

-- What the code relies on in MinIO: a bucket that it reports or makes is there, and stays.
pub record IsBucketStore {W : Type 0} (minio : Minio W) (buckets : W → Bytes → Bool) : Type 0 where
  pub exists_reads : (b : Bytes) (w : W) → (minio.bucket_exists b w).0.0 ≡ true → buckets w b ≡ true
  pub exists_keeps : (b : Bytes) (w : W) → buckets (minio.bucket_exists b w).1 ≡ buckets w
  pub make_makes :
      (b : Bytes) (w : W)
      → (minio.make_bucket b w).0 ≡ true
      → buckets (minio.make_bucket b w).1 b ≡ true
  pub make_keeps :
      (b k : Bytes) (w : W) → buckets w k ≡ true → buckets (minio.make_bucket b w).1 k ≡ true

module _ {W : Type 0} (minio : Minio W) (buckets : W → Bytes → Bool)
    (store : IsBucketStore minio buckets) where
  -- What a call leaves: the buckets that were there, and if the process runs on, all of `bs`.
  abbrev pub Has : List Bytes → W → Start × W → Type 0
  Has bs w (start, w') =
      ((k : Bytes) → buckets w k ≡ true → buckets w' k ≡ true)
      × (start ≡ running → All (λ b. buckets w' b ≡ true) bs)

  after_exists-Has :
      (b : Bytes) (answer : Bool) (w : W)
      → (answer ≡ true → buckets w b ≡ true)
      → Has (b ∷ []) w (after_exists minio b answer w)
  unfolding after_exists after_made
  after_exists-Has b true w h = (λ k e. e, λ e. (h refl, tt))
  after_exists-Has b false w h =
      (λ k e. store.make_keeps b k w e, λ e. (made (minio.make_bucket b w).0 refl e, tt))
    where
      made :
          (m : Bool)
          → (minio.make_bucket b w).0 ≡ m
          → after_made m ≡ running
          → buckets (minio.make_bucket b w).1 b ≡ true
      made true e r = store.make_makes b w e
      made false e r = cc

  init_bucket-Has : (b : Bytes) (w : W) → Has (b ∷ []) w (init_bucket minio b w)
  unfolding init_bucket
  init_bucket-Has b w =
      let w' = (minio.bucket_exists b w).1 in
      let (keeps, has) =
        after_exists-Has b (minio.bucket_exists b w).0.0 w'
          (λ e. rw store.exists_keeps (store.exists_reads b w e)) in
      (λ k e. keeps k (rw store.exists_keeps e), has)

  go_on-Has :
      (b : Bytes) (bs : List Bytes) (start : Start) (w w' : W) (rest : State W Start)
      → Has (b ∷ []) w (start, w')
      → ((v : W) → Has bs v (rest v))
      → Has (b ∷ bs) w (go_on start rest w')
  go_on-Has b bs running w w' rest (keeps, has) h =
      let (more, all) = h w' in (λ k e. more k (keeps k e), λ e. (more b (has refl).0, all e))
  go_on-Has b bs exited w w' rest (keeps, has) h = (keeps, λ e. cc)
  go_on-Has b bs panicked w w' rest (keeps, has) h = (keeps, λ e. cc)

  init_buckets-Has : (bs : List Bytes) (w : W) → Has bs w (init_buckets (some minio) bs w)
  unfolding init_buckets
  init_buckets-Has [] w = (λ k e. e, λ e. tt)
  init_buckets-Has (b ∷ bs) w = go_on-Has b bs _ w _ _ (init_bucket-Has b w) (init_buckets-Has bs)

  -- If MinIO can be reached and the start runs on, every bucket of the list is there.
  pub minio_init-creates :
      (env : W → Bytes → Bytes) (new_client : Bytes → Bytes → Bytes → Option (Minio W))
      (endpoint access_key secret_key : Bytes) (bs : List Bytes) (w : W)
      → new_client (env w endpoint) (env w access_key) (env w secret_key) ≡ some minio
      → (minio_init env new_client endpoint access_key secret_key bs w).0 ≡ running
      → All
          (λ b. buckets (minio_init env new_client endpoint access_key secret_key bs w).1 b ≡ true)
          bs
  unfolding minio_init
  minio_init-creates env new_client endpoint access_key secret_key bs w made runs =
      rw made ((init_buckets-Has bs w).1 (rw made at runs))
