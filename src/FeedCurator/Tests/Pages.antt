-- ===== src/FeedCurator/Tests/Pages.antt =====
-- A service with two articles, one on a page, and one that never has any.
use stockic_feed_api.Common.{
  ℕ, zero, suc, ◌*◌, ◌≡◌, refl, [], ◌∷◌, Option, none, some, arith, take, drop,
}
use stockic_feed_api.Common.State.{State}
use stockic_feed_api.Go.Text.{codes}
use stockic_feed_api.FeedCurator.Fetcher.{fetch_pages, fetch_each}
use stockic_feed_api.FeedCurator.Fetcher.Paging.{
  ServesPages, fetch_pages-all, fetch_pages_endless, fetched_all, fetch_each-all,
}
use stockic_feed_api.FeedCurator.Models.{ApiResponse}
use stockic_feed_api.FeedCurator.Tests.Summaries.{two}

abbrev page_after : ℕ → ApiResponse
page_after n = record {
  status = codes "ok";
  total_results = 2;
  articles = take 1 (drop (n * 1) two);
}

abbrev paged : ℕ → State ℕ (Option ApiResponse)
paged zero w = (none, suc w)
paged (suc n) w = (some (page_after n), suc w)

abbrev paged-ServesPages : ServesPages paged two 1
paged-ServesPages = record {
  answer = λ n w. page_after n;
  answers = λ n w. refl;
  total = λ n w. refl;
  page = λ n w. refl;
}

fetch_pages-all_example : (w' : ℕ) × (fetch_pages paged 3 1 [] 0 ≡ some (two, w'))
fetch_pages-all_example =
    fetch_pages-all paged two 1 paged-ServesPages (omega arith) (omega arith) 3 0 (omega arith)

abbrev hollow : ApiResponse
hollow = record { status = codes "ok"; total_results = 5; articles = [] }

abbrev always_hollow : ℕ → State ℕ (Option ApiResponse)
always_hollow n w = (some hollow, suc w)

fetch_pages_endless_example : fetch_pages always_hollow 100 1 [] 0 ≡ none
fetch_pages_endless_example =
    fetch_pages_endless always_hollow [] 5 (omega arith) (omega arith)
      (λ n w. (hollow, refl, refl, refl)) 100 1 0

fetch_each-all_example :
    (w' : ℕ) × (fetch_each (λ key. paged) 3 (codes "us" ∷ []) 0
      ≡ some (fetched_all (λ key. two) (codes "us" ∷ []), w'))
fetch_each-all_example =
    fetch_each-all (λ key. paged) (λ key. two) 1 (omega arith) (λ key. paged-ServesPages) 3
      (λ key. omega arith) (λ key. omega arith) (codes "us" ∷ []) 0
