-- ===== src/EndToEnd/Tests/Wire.antt =====
-- A text format for the tests: numbers, with lengths in front of lists.
use mathlib.Core.Option.{some-injective}
use stockic_feed_api.Common.{
  ℕ, zero, suc, ◌≡◌, refl, sym, ap, ◌∙◌, List, [], ◌∷◌, Option, none, some, length, arith, ◌>>=◌,
}
use stockic_feed_api.Go.Text.{Bytes}
use stockic_feed_api.Stores.Codec.{Codec}
use stockic_feed_api.FeedApi.FindArticle.{News}
use stockic_feed_api.FeedApi.Handlers.Lists.{lookup}
use stockic_feed_api.FeedCurator.Models.{SummarizedArticle, SummarizedResponse}
use stockic_feed_api.FeedCurator.Summarizer.Categories.{entry_of}
use stockic_feed_api.EndToEnd.{read_response, read_entry, Agrees}

pub record Wire (A : Type 0) : Type 0 where
  pub put : A → Bytes → Bytes
  pub get : Bytes → Option (A × Bytes)
  pub reads : (a : A) (rest : Bytes) → get (put a rest) ≡ some (a, rest)

abbrev pub get_number : Bytes → Option (ℕ × Bytes)
get_number [] = none
get_number (n ∷ s) = some (n, s)

abbrev pub numbers : Wire ℕ
numbers = record { put = λ n s. n ∷ s; get = get_number; reads = λ n s. refl }

module _ {A B : Type 0} (a : Wire A) (b : Wire B) where
  abbrev pub get_pair : Bytes → Option ((A × B) × Bytes)
  get_pair s = do (x, t) ← a.get s; (y, u) ← b.get t; some ((x, y), u)

  abbrev pub pairs : Wire (A × B)
  pairs = record {
    put = λ p s. a.put p.0 (b.put p.1 s);
    get = get_pair;
    reads = λ p s. rw (a.reads, b.reads) refl;
  }

module _ {A : Type 0} (a : Wire A) where
  unfoldable pub put_all : List A → Bytes → Bytes
  put_all [] s = s
  put_all (x ∷ xs) s = a.put x (put_all xs s)

  unfoldable pub get_all : ℕ → Bytes → Option (List A × Bytes)
  get_all zero s = some ([], s)
  get_all (suc n) s = do (x, t) ← a.get s; (xs, u) ← get_all n t; some (x ∷ xs, u)

  pub get_all-put_all :
      (xs : List A) (s : Bytes) → get_all (length xs) (put_all xs s) ≡ some (xs, s)
  unfolding get_all put_all
  get_all-put_all [] s = refl
  get_all-put_all (x ∷ xs) s = rw (a.reads, get_all-put_all xs s) refl

  unfoldable pub get_list : Bytes → Option (List A × Bytes)
  get_list [] = none
  get_list (n ∷ s) = get_all n s

  abbrev pub lists : Wire (List A)
  unfolding get_list
  lists = record { put = λ xs s. length xs ∷ put_all xs s; get = get_list; reads = get_all-put_all }

module _ {A B : Type 0} (a : Wire A) (to : A → B) (from : B → A)
    (same : (b : B) → to (from b) ≡ b) where
  abbrev pub image : Wire B
  image = record {
    put = λ b s. a.put (from b) s;
    get = λ s. a.get s >>= λ p. some (to p.0, p.1);
    reads = λ b s. rw (a.reads, same) refl;
  }

abbrev pub texts : Wire Bytes
texts = lists numbers

abbrev pub Fields : Type 0
Fields =
    (Bytes × (Bytes × (Bytes × Bytes)))
    × ((Bytes × (Bytes × (Bytes × Bytes))) × (List Bytes × List (List ℕ)))

abbrev pub fields : Wire Fields
fields =
    let four = pairs texts (pairs texts (pairs texts texts)) in
    pairs four (pairs four (pairs (lists texts) (lists (lists numbers))))

abbrev pub to_article : Fields → SummarizedArticle
to_article ((a, (b, (c, d))), ((e, (f, (g, h))), (i, j))) = record {
  stockic_id = a;
  source = b;
  author = c;
  title = d;
  url = e;
  url_to_image = f;
  published_at = g;
  summarized_content = h;
  companies_tags = i;
  news_highlights = j;
}

abbrev pub from_article : SummarizedArticle → Fields
from_article s = (
  (s.stockic_id, (s.source, (s.author, s.title))),
  (
    (s.url, (s.url_to_image, (s.published_at, s.summarized_content))),
    (s.companies_tags, s.news_highlights),
  ),
)

abbrev pub articles : Wire SummarizedArticle
articles = image fields to_article from_article (λ b. refl)

abbrev pub responses : Wire SummarizedResponse
responses =
    image (pairs texts (pairs numbers (lists articles)))
      (λ p. record { status = p.0; total_results = p.1.0; articles = p.1.1 })
      (λ r. (r.status, (r.total_results, r.articles))) (λ b. refl)

abbrev pub maps : Wire (List (Bytes × SummarizedResponse))
maps = lists (pairs texts responses)

abbrev pub test_marshal : List (Bytes × SummarizedResponse) → Option Bytes
test_marshal m = some (maps.put m [])

abbrev pub read_map : List (Bytes × SummarizedResponse) → News
read_map [] = []
read_map ((k, r) ∷ m) = (k, read_response r) ∷ read_map m

abbrev pub read_all : Option (List (Bytes × SummarizedResponse) × Bytes) → Option News
read_all none = none
read_all (some (m, rest)) = some (read_map m)

abbrev pub test_codec : Codec News
test_codec = record { marshal = λ n. none; unmarshal = λ s. read_all (maps.get s) }

lookup-read_map :
    (m : List (Bytes × SummarizedResponse)) (key : Bytes)
    → lookup key (read_map m) ≡ read_entry (entry_of key m)
unfolding lookup entry_of
lookup-read_map [] key = refl
lookup-read_map ((k, r) ∷ m) key = ground (arith, lookup-read_map m key)

pub test_marshal-Agrees : Agrees test_marshal test_codec
test_marshal-Agrees m text e =
    let written : maps.put m [] ≡ text = some-injective _ _ e in
    (read_map m, ap read_all (ap maps.get (sym written) ∙ maps.reads m []), lookup-read_map m)
