-- ===== src/FeedCurator/Assistants.antt =====
-- `summarizer`, `highlighter` and `CompaniesTagger` of feed-curator/summarizer/summarizer.go, which the
-- loops of the summarizer have commented out. Printing is left out.
use stockic_feed_api.Common.{ℕ, Bool, List, [], ◌++◌, Option, none, some}
use stockic_feed_api.Common.State.{State, ◌>>=◌, pure}
use stockic_feed_api.Go.Text.{Bytes, codes}

-- `genai.NewClient` is `new_client`, on an API key; `generate` asks a model of a client.
module _ {W C R : Type 0} (env : W → Bytes → Bytes) (new_client : Bytes → State W (Option C))
    (generate : C → Bytes → Bytes → State W (Option R)) where
  with_client : Bytes → Bytes → Option C → State W (Option R)
  with_client model prompt none = pure none
  with_client model prompt (some client) = generate client model prompt

  unfoldable pub summarizer : Bytes → Bytes → Bytes → State W (Option R)
  unfolding with_client
  summarizer model title text world =
      let prompt =
        codes
          "Focus on content, main points and not on source/author. Summarize given news only called "
        ++ (title ++ (codes " in the url: " ++ text)) in
      (do client ← new_client (env world (codes "GEMINI_API_KEY")); with_client model prompt client)
        world

  unfoldable pub highlighter : Bytes → Bytes → State W (Option R)
  unfolding with_client
  highlighter model text world =
      let prompt =
        codes
          "Extract the important and impactful lines/metrics from given news content (only lines/words): "
        ++ text in
      (do client ← new_client (env world (codes "GEMINI_API_KEY")); with_client model prompt client)
        world

-- `score` is the bit pattern of a float.
pub record TaggerAiEntity : Type 0 where
  pub entity : Bytes
  pub score : ℕ
  pub word : Bytes
  pub start : ℕ
  pub end : ℕ

pub record TaggerRequest : Type 0 where
  pub url : Bytes
  pub authorization : Bytes
  pub body : Bytes

-- `marshal` encodes the map with the one key "inputs"; `client_do` sends a POST of JSON and returns
-- what could be read of the answer; `unmarshal` returns what it could decode, with an error or not.
-- `http.NewRequest` does not fail on the constant method and address.
module _ {W : Type 0} (env : W → Bytes → Bytes) (marshal : Bytes → Bytes)
    (client_do : TaggerRequest → State W (Option Bytes))
    (unmarshal : Bytes → List TaggerAiEntity × Bool) where
  entities_of : Option Bytes → List TaggerAiEntity
  entities_of none = []
  entities_of (some body) = (unmarshal body).0

  tagger_request : Bytes → W → TaggerRequest
  tagger_request text world = record {
    url =
        codes
          "https://api-inference.huggingface.co/models/dbmdz/bert-large-cased-finetuned-conll03-english";
    authorization = codes "Bearer " ++ env world (codes "TAGGER_HUGGINGFACE_API_KEY");
    body = marshal text;
  }

  unfoldable pub companies_tagger : Bytes → State W (List TaggerAiEntity)
  unfolding entities_of tagger_request
  companies_tagger text world =
      (do answer ← client_do (tagger_request text world); pure (entities_of answer)) world
