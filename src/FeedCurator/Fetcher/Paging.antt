-- ===== src/FeedCurator/Fetcher/Paging.antt =====
-- The loop over pages: what it collects, when it ends, and when it does not.
use stockic_feed_api.Common.{
  ℕ, zero, suc, ◌+◌, ◌*◌, ◌≤◌, ◌<◌, ◌≡◌, refl, not, List, [], ◌∷◌, append-nil, Option, none, some,
  arith, ltb, length, take, drop, take_all, take_add, Bool-cases, if◌then◌else◌, length-take, inl,
  inr, lt→ltb, le→ltb, ltb→le, ltb→lt,
}
use stockic_feed_api.Common.State.{State}
use stockic_feed_api.Go.Int
use stockic_feed_api.Go.Int.{sign_bit}
use stockic_feed_api.Go.Text.{Bytes}
use stockic_feed_api.FeedCurator.Models.{Article, ApiResponse}
use stockic_feed_api.FeedCurator.Fetcher.{fetch_pages, fetch_each, fetched_response}

-- A service that answers with the pages of one list: page n has the articles behind the first n - 1
-- pages, and every page tells how many articles there are in all.
pub record ServesPages {W : Type 0} (call : ℕ → State W (Option ApiResponse)) (all : List Article)
    (page_size : ℕ) : Type 0 where
  pub answer : ℕ → W → ApiResponse
  pub answers : (n : ℕ) (w : W) → (call (suc n) w).0 ≡ some (answer n w)
  pub total : (n : ℕ) (w : W) → (answer n w).total_results ≡ length all
  pub page : (n : ℕ) (w : W) → (answer n w).articles ≡ take page_size (drop (n * page_size) all)

module _ {W : Type 0} (call : ℕ → State W (Option ApiResponse)) where
  module _ (all : List Article) (page_size : ℕ) (serves : ServesPages call all page_size)
      (some_size : 1 ≤ page_size) (small : length all < sign_bit) where
    -- One round, with the articles that it has then.
    round :
        (fuel n : ℕ) (w : W)
        → fetch_pages call (suc fuel) (suc n) (take (n * page_size) all) w ≡ (
            if not (Int.less (length (take (suc n * page_size) all)) (length all))
            then some (take (suc n * page_size) all, (call (suc n) w).1)
            else fetch_pages call fuel
                (suc (suc n))
                (take (suc n * page_size) all)
                (call (suc n) w).1)
    unfolding fetch_pages
    round fuel n w =
        let joined : n * page_size + page_size ≡ suc n * page_size = grind arith in
        let next : suc n + 1 ≡ suc (suc n) = omega arith in
        rw (serves.answers n w, fetch_pages)
          (rw (
            serves.page n w,
            serves.total n w,
            take_add (n * page_size) page_size all,
            joined,
            next,
          ))

    fetch_pages-from :
        (fuel n : ℕ) (w : W)
        → n * page_size ≤ length all
        → length all < n * page_size + fuel
        → (w' : W) × (fetch_pages call fuel (suc n) (take (n * page_size) all) w ≡ some (all, w'))
    fetch_pages-from zero n w h k = absurd (omega arith)
    fetch_pages-from (suc fuel) n w h k = elim (Bool-cases (ltb (suc n * page_size) (length all))) [
      | inl more ↦
          rw
            (
              round fuel n w,
              length-take (suc n * page_size) all (omega (arith, ltb→lt _ _ more)),
              Int.less_nonneg (suc n * page_size) (length all) (omega (arith, ltb→lt _ _ more))
                  small,
              more,
            )
            (fetch_pages-from fuel (suc n) (call (suc n) w).1 (omega (arith, ltb→lt _ _ more))
              (grind arith))
      | inr done ↦
          rw
            (
              round fuel n w,
              take_all (suc n * page_size) all (ltb→le _ _ done),
              Int.less_nonneg (length all) (length all) small small,
              le→ltb (length all) (length all) (omega arith),
            )
            ((call (suc n) w).1, refl)
    ]

    -- The loop collects every article of the list, once and in order, and ends: one round more than
    -- there are articles is enough.
    pub fetch_pages-all :
        (fuel : ℕ) (w : W)
        → length all < fuel
        → (w' : W) × (fetch_pages call fuel 1 [] w ≡ some (all, w'))
    fetch_pages-all fuel w h =
        let none_before : 0 * page_size ≡ 0 = omega arith in
        let (w', e) = fetch_pages-from fuel 0 w (omega arith) (omega arith) in
        (w', rw none_before at e)

  -- If the news service keeps answering with no articles and a total above the number of articles
  -- at hand, the loop over pages ends within no number of rounds.
  pub fetch_pages_endless :
      (articles : List Article) (total : ℕ)
      → length articles < total
      → total < sign_bit
      → ((n : ℕ) (w : W)
          → (r : ApiResponse) × ((call n w).0 ≡ some r)
            × (r.articles ≡ [])
            × (r.total_results ≡ total))
      → (fuel page : ℕ) (w : W) → fetch_pages call fuel page articles w ≡ none
  unfolding fetch_pages
  fetch_pages_endless articles total few small empty zero page w = refl
  fetch_pages_endless articles total few small empty (suc fuel) page w =
      let (r, answered, no_articles, same) = empty page w in
      rw
        (
          answered,
          fetch_pages,
          no_articles,
          append-nil,
          same,
          Int.less_nonneg (length articles) total (omega arith) small,
          lt→ltb (length articles) total few,
        )
        (fetch_pages_endless articles total few small empty fuel (page + 1) (call page w).1)

-- What every country or category gets.
abbrev pub fetched_all : (Bytes → List Article) → List Bytes → List (Bytes × ApiResponse)
fetched_all lists [] = []
fetched_all lists (key ∷ keys) = (key, fetched_response (lists key)) ∷ fetched_all lists keys

module _ {W : Type 0} (call : Bytes → ℕ → State W (Option ApiResponse))
    (lists : Bytes → List Article) (page_size : ℕ) (some_size : 1 ≤ page_size)
    (serves : (key : Bytes) → ServesPages (call key) (lists key) page_size) (fuel : ℕ)
    (small : (key : Bytes) → length (lists key) < sign_bit)
    (enough : (key : Bytes) → length (lists key) < fuel) where
  -- If the news service answers every country or category with the pages of a list, the loops
  -- over keys and pages end within one round more than the longest list has articles, and every
  -- key gets its whole list, in order, with its length as the total.
  pub fetch_each-all :
      (keys : List Bytes) (w : W)
      → (w' : W) × (fetch_each call fuel keys w ≡ some (fetched_all lists keys, w'))
  unfolding fetch_each
  fetch_each-all [] w = (w, refl)
  fetch_each-all (key ∷ keys) w =
      let (w', fetched) =
        fetch_pages-all (call key) (lists key) page_size (serves key) some_size (small key) fuel w
          (enough key) in
      let (w'', others) = fetch_each-all keys w' in
      (w'', rw (fetched, fetch_each) (rw (others, fetch_each)))
