-- ===== src/LogPusher/Shared/Conserved.antt =====
-- No read of an article is counted twice or forgotten between the two services.
use stockic_feed_api.Common.{
  ℕ, ◌+◌, ◌≡◌, refl, ap, ◌∙◌, arith, true, List, Option, Bool-cases, inl, inr,
}
use stockic_feed_api.Go.Text.{Bytes, str_eq}
use stockic_feed_api.Go.Text.Laws.{Lacks, str_eq→eq, str_eq-false}
use stockic_feed_api.Stores.Minio.{Minio, Clock}
use stockic_feed_api.Stores.Redis.{Redis}
use stockic_feed_api.FeedApi.Handlers.Detail.{redis_key}
use stockic_feed_api.FeedApi.LogSync.{LogData}
use stockic_feed_api.LogPusher.Shared.{
  System, IsCounter, is_ours, Step, count, take_left, take_right, upload_left, upload_right, Reach,
  here, next,
}
use stockic_feed_api.LogPusher.Shared.Tally.{
  tallied, redis_key-injective, take_count-tally, upload-keeps,
}

module _ {W : Type 0} (log : Redis W) (minio : Minio W) (clock : Clock W)
    (marshal : List LogData → Option Bytes) (counts : W → Bytes → ℕ) (number : Bytes → ℕ)
    (counter : IsCounter log counts number) (news_id api_key : Bytes)
    (clock_keeps : (w : W) → counts (clock.now w).1 ≡ counts w)
    (put_keeps : (b n d : Bytes) (w : W) → counts (minio.put_object b n d w).1 ≡ counts w)
    (whole_id : Lacks b'/' news_id) (whole_key : Lacks b'/' api_key) where
  -- All counts of the article and the user, wherever they are.
  abbrev pub balance : System W → ℕ
  balance s =
      counts s.world (redis_key news_id api_key)
      + tallied log minio clock marshal counts number counter news_id api_key s.left
      + tallied log minio clock marshal counts number counter news_id api_key s.right
      + s.handed

  incr-count :
      (n u : Bytes) (w : W)
      → Lacks b'/' n
      → Lacks b'/' u
      → (log.incr (redis_key n u) w).0 ≡ true
      → counts (log.incr (redis_key n u) w).1 (redis_key news_id api_key)
        ≡ counts w (redis_key news_id api_key)
          + is_ours log minio clock marshal number news_id api_key n u
  incr-count n u w hn hu e =
      let key_injective =
        redis_key-injective log minio clock marshal counts number counter news_id api_key n u hn hu
          whole_id whole_key in
      let others = counter.incr_others (redis_key n u) (redis_key news_id api_key) w in
      elim (Bool-cases (str_eq n news_id)) [
        | inr other ↦
            rw (other, others (λ same. str_eq-false other (key_injective same).0)) (omega arith)
        | inl id ↦ elim (Bool-cases (str_eq u api_key)) [
          | inr other ↦
              rw (id, other, others (λ same. str_eq-false other (key_injective same).1))
                (omega arith)
          | inl user ↦
              let key : redis_key n u ≡ redis_key news_id api_key =
                ap (λ x. redis_key x u) (str_eq→eq n news_id id)
                ∙ ap (redis_key news_id) (str_eq→eq u api_key user) in
              rw (id, user, ← key) (counter.incr_adds (redis_key n u) w e)
        ]
      ]

  Step-balance :
      (s t : System W)
      → Step log minio clock marshal number news_id api_key s t
      → balance t + s.counted ≡ balance s + t.counted
  Step-balance s t (count n u hn hu e is_t) =
      rw is_t (omega (arith, incr-count n u s.world hn hu e))
  Step-balance s t (take_left n u g w hn hu ok e is_t) = rw is_t (
      omega (
        arith,
        take_count-tally log minio clock marshal counts number counter news_id api_key clock_keeps
            put_keeps whole_id whole_key n u s.left g s.world w hn hu ok e,
      ))
  Step-balance s t (take_right n u g w hn hu ok e is_t) = rw is_t (
      omega (
        arith,
        take_count-tally log minio clock marshal counts number counter news_id api_key clock_keeps
            put_keeps whole_id whole_key n u s.right g s.world w hn hu ok e,
      ))
  Step-balance s t (upload_left g order is_t) =
      let kept =
        upload-keeps log minio clock marshal counts number counter news_id api_key clock_keeps
          put_keeps whole_id whole_key g s.world in
      rw (is_t, kept) (omega arith)
  Step-balance s t (upload_right g order is_t) =
      let kept =
        upload-keeps log minio clock marshal counts number counter news_id api_key clock_keeps
          put_keeps whole_id whole_key g s.world in
      rw (is_t, kept) (omega arith)

  -- In any interleaving of detail requests with the two synchronisations, in which no call of Redis
  -- fails, every read of the article by the user is, once, either still in its counter, or in the map
  -- of one of the services, or handed to the upload.
  pub Reach-balance :
      (s t : System W)
      → Reach log minio clock marshal number news_id api_key s t
      → balance t + s.counted ≡ balance s + t.counted
  Reach-balance s t here = refl
  Reach-balance s t (next {t = m} r st) = omega (arith, Reach-balance s m r, Step-balance m t st)
