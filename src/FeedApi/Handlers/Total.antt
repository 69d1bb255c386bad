-- ===== src/FeedApi/Handlers/Total.antt =====
-- `headlines_handler` answers every request: its slice expression is never out of range.
use stockic_feed_api.Common.{
  ℕ, suc, ◌≤◌, ◌<◌, ◌≡◌, refl, List, [], ◌∷◌, Option, none, some, arith, length, get_elem?, ltb,
  Bool-cases, Option-cases, inl, inr, zero, ltb→le,
}
use stockic_feed_api.Go.Http.{Request, http_error}
use stockic_feed_api.Go.Int.{sign_bit}
use stockic_feed_api.Go.Text.{Bytes, codes, str_eq}
use stockic_feed_api.Stores.Codec.{Codec}
use stockic_feed_api.Stores.Redis.{Redis, Reply, value}
use stockic_feed_api.FeedApi.FindArticle.{News}
use stockic_feed_api.FeedApi.Handlers.Base.{
  Writer, Task, path_parts, positive_number, after_reply, finish,
}
use stockic_feed_api.FeedApi.Handlers.Lists.{
  articles_at, read_news, headlines_page, headlines_size, headlines_parts, headlines_handler,
}
use stockic_feed_api.FeedApi.Handlers.Numbers.{positive_number_bounds}
use stockic_feed_api.FeedApi.Handlers.Served.{page_response_lem}

-- An answer, with no goroutine started.
abbrev pub IsAnswered : {W : Type 0} → Option (Writer × List Task × W) → Type 0
IsAnswered {W} r = (w : Writer) × (world : W) × (r ≡ some (w, [], world))

finish-IsAnswered :
    {W : Type 0} (o : Option Writer) (world : W)
    → (w : Writer) × (o ≡ some w)
    → IsAnswered (finish o world)
unfolding finish
finish-IsAnswered o world (w, e) = (w, world, rw e)

get_elem?_inside {ℓ} :
    {A : Type ℓ} (xs : List A) (i : ℕ) → i < length xs → (x : A) × (get_elem? xs i ≡ some x)
get_elem?_inside [] i h = elim h [ ]
get_elem?_inside (x ∷ xs) zero h = (x, refl)
get_elem?_inside (x ∷ xs) (suc i) h = get_elem?_inside xs i (omega arith)

-- No list of articles that the cache can hold for the key is longer than a Go slice can be.
abbrev pub Fits : Codec News → Type 0
Fits codec =
    (text : Bytes) (news : News)
    → codec.unmarshal text ≡ some news
    → length (articles_at (codes "us") news) < sign_bit

module _ {W : Type 0} (news_cache : Redis W) (codec : Codec News) (fits : Fits codec) (w : Writer)
    (world : W) where
  module _ (fetch_error parse_error : Bytes) (k : News → Option Writer)
      (answers : (text : Bytes) (news : News)
        → codec.unmarshal text ≡ some news
        → (w' : Writer) × (k news ≡ some w')) where
    after_reply-answers :
        (r : Reply) → (w' : Writer) × (after_reply codec fetch_error parse_error w k r ≡ some w')
    unfolding after_reply
    after_reply-answers (value text) = elim (Option-cases (codec.unmarshal text)) [
      | inl unreadable ↦ (http_error parse_error 500 w, rw unreadable)
      | inr (news, read) ↦ rw read (answers text news read)
    ]
    after_reply-answers _ = (http_error fetch_error 500 w, refl)

  headlines_page-IsAnswered :
      (size : ℕ)
      → 1 ≤ size
      → size < sign_bit
      → IsAnswered (headlines_page news_cache codec w size world)
  unfolding headlines_page read_news
  headlines_page-IsAnswered size pos small = finish-IsAnswered _ _ (
      after_reply-answers _ _ _
        (λ text news read. (
          _,
          page_response_lem w (articles_at (codes "us") news) (fits text news read) 1 size
              (omega arith) pos (omega arith),
        ))
        (news_cache.get (codes "headlines") world).0)

  headlines_size-IsAnswered :
      (s : Bytes) (o : Option ℕ)
      → positive_number s ≡ o
      → IsAnswered (headlines_size news_cache codec w o world)
  unfolding headlines_size
  headlines_size-IsAnswered s none e = finish-IsAnswered (some _) world (_, refl)
  headlines_size-IsAnswered s (some size) e =
      let (pos, small) = positive_number_bounds s size e in headlines_page-IsAnswered size pos small

  headlines_parts-IsAnswered :
      (parts : List Bytes) → IsAnswered (headlines_parts news_cache codec w parts world)
  unfolding headlines_parts
  headlines_parts-IsAnswered parts = elim (Bool-cases (ltb (length parts) 5)) [
    | inl short ↦ rw short (finish-IsAnswered (some _) world (_, refl))
    | inr long ↦
        let (s, part) = get_elem?_inside parts 4 (ltb→le (length parts) 5 long) in
        rw (long, part) (headlines_size-IsAnswered s (positive_number s) refl)
  ]

  -- The headlines handler answers every request in every state of the news cache, with no panic
  -- and no goroutine, if no stored list of articles is longer than a 64-bit int can count.
  pub headlines_handler-IsAnswered :
      (request : Request) → IsAnswered (headlines_handler news_cache codec request w world)
  unfolding headlines_handler
  headlines_handler-IsAnswered request = elim (Bool-cases (str_eq request.method (codes "GET"))) [
    | inl get ↦ rw get (headlines_parts-IsAnswered (path_parts request))
    | inr other ↦ rw other (finish-IsAnswered (some _) world (_, refl))
  ]
