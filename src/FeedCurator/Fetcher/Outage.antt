-- ===== src/FeedCurator/Fetcher/Outage.antt =====
-- The fetcher while the news service is down.
use stockic_feed_api.Common.{ℕ, suc, ◌≡◌, refl, false, List, [], ◌∷◌, Option, none, some, ◌==◌}
use stockic_feed_api.Common.State.{State}
use stockic_feed_api.Go.Text.{Bytes}
use stockic_feed_api.FeedCurator.Fetcher.{
  Fetch, no_response, response, read_fetch, news_api_caller, fetch_pages, fetch_each,
  news_api_headline_caller, news_api_everything_caller,
}
use stockic_feed_api.FeedCurator.Fetcher.Paging.{fetched_all}
use stockic_feed_api.FeedCurator.Models.{Article, ApiResponse}

-- No response, or one with another status than 200.
unfoldable pub IsFailure : Fetch → Type 0
IsFailure no_response = Unit {0}
IsFailure (response code body) = (code == 200) ≡ false

abbrev pub nothing : Bytes → List Article
nothing key = []

module _ {W : Type 0} (call : Bytes → ℕ → State W (Option ApiResponse)) where
  -- The world when each key was asked for once.
  unfoldable pub asked_once : List Bytes → W → W
  asked_once [] world = world
  asked_once (key ∷ keys) world = asked_once keys (call key 1 world).1

  fetch_pages-fails :
      (fuel : ℕ) (key : Bytes) (world : W)
      → (call key 1 world).0 ≡ none
      → fetch_pages (call key) (suc fuel) 1 [] world ≡ some ([], (call key 1 world).1)
  unfolding fetch_pages
  fetch_pages-fails fuel key world failed = rw (failed, fetch_pages) refl

  -- If every call fails, the loop asks once for each key, and has no article for any.
  pub fetch_each-nothing :
      (fuel : ℕ) (keys : List Bytes) (world : W)
      → ((key : Bytes) (page : ℕ) (w : W) → (call key page w).0 ≡ none)
      → fetch_each call (suc fuel) keys world
        ≡ some (fetched_all nothing keys, asked_once keys world)
  unfolding fetch_each asked_once
  fetch_each-nothing fuel [] world fails = refl
  fetch_each-nothing fuel (key ∷ keys) world fails =
      rw
        (
          fetch_pages-fails fuel key world (fails key 1 world),
          fetch_each-nothing fuel keys (call key 1 world).1 fails,
          fetch_each,
        )
        refl

module _ {W : Type 0} (unmarshal : Bytes → Option ApiResponse) (http_get : Bytes → State W Fetch)
    (down : (url : Bytes) (w : W) → IsFailure (http_get url w).0) where
  read_fetch-IsFailure : (f : Fetch) → IsFailure f → read_fetch unmarshal f ≡ none
  unfolding IsFailure read_fetch
  read_fetch-IsFailure no_response h = refl
  read_fetch-IsFailure (response code body) h = rw h refl

  news_api_caller-fails :
      (url : Bytes) (w : W) → (news_api_caller unmarshal http_get url w).0 ≡ none
  unfolding news_api_caller
  news_api_caller-fails url w = read_fetch-IsFailure (http_get url w).0 (down url w)

  module _ (api_key : Bytes) (decimal : ℕ → Bytes) (fuel : ℕ) where
    pub news_api_headline_caller-fails :
        (page_size country : Bytes) (page : ℕ) (w : W)
        → (news_api_headline_caller unmarshal http_get api_key decimal fuel page_size country page
            w).0
          ≡ none
    unfolding news_api_headline_caller
    news_api_headline_caller-fails page_size country page w = news_api_caller-fails _ w

    pub news_api_everything_caller-fails :
        (language sort_by from to category : Bytes) (page : ℕ) (w : W)
        → (news_api_everything_caller unmarshal http_get api_key decimal fuel language sort_by from
            to category page w).0
          ≡ none
    unfolding news_api_everything_caller
    news_api_everything_caller-fails language sort_by from to category page w =
        news_api_caller-fails _ w
