-- ===== src/FeedApi/Handlers/Base.antt =====
-- What the handlers of feed-api share: `DeliverJsonError`, the JSON values of responses, the guard on
-- numbers in a path, and the reads of the news cache. Log messages are left out.
use stockic_feed_api.Common.{ℕ, Bool, true, false, List, [], Option, none, some, if◌then◌else◌}
use stockic_feed_api.Go.Atoi.{atoi}
use stockic_feed_api.Go.Http.{
  Request, ResponseWriter, json, write, write_header, set_content_type, http_error,
}
use stockic_feed_api.Go.Int
use stockic_feed_api.Go.Text.{Bytes, codes, split}
use stockic_feed_api.Stores.Codec.{Codec}
use stockic_feed_api.Stores.Redis.{Reply, value}
use stockic_feed_api.FeedApi.FindArticle.{News}
use stockic_feed_api.FeedApi.Models.{SummarizedArticle, SummarizedResponse}

-- The values that feed-api encodes.
pub data Json : Type 0 where
  greet : Bytes → Json
  page : SummarizedResponse → Json
  article : SummarizedArticle → Json
  error_object : Bytes → Json

abbrev pub Writer : Type 0
Writer = ResponseWriter Json

-- A goroutine that a handler starts: `RedisLog.Incr(key)`, or `RedisAPICache.Set(ip, "blocked", hour)`.
pub data Task : Type 0 where
  increment : Bytes → Task
  mark_blocked : Bytes → Task

-- A handler returns the response, the goroutines that it starts and the world; `none` is a panic.
abbrev pub Handler : Type 0 → Type 0
Handler W = Request → Writer → W → Option (Writer × List Task × W)

-- Header, and one JSON value; an error of the encoder is only logged.
unfoldable pub json_response : Json → Writer → Writer
json_response v w = (write (json v) (set_content_type (codes "application/json") w)).1

-- `http.Error` after a failed write; the status is already sent.
after_encode : Bool × Writer → Writer
after_encode (true, w) = w
after_encode (false, w) = http_error (codes "{\"error\": \"internal server error\"}") 500 w

unfoldable pub deliver_json_error : Bytes → ℕ → Writer → Writer
unfolding after_encode
deliver_json_error message code w = after_encode (
    write (json (error_object message))
      (write_header code (set_content_type (codes "application/json") w)))

-- `strings.Split(request.URL.Path, "/")`
unfoldable pub path_parts : Request → List Bytes
path_parts request = split request.path b'/'

-- The test `err != nil || n < 1` on `strconv.Atoi`: `none` if it fires.
unfoldable pub at_least_one : Option ℕ → Option ℕ
at_least_one none = none
at_least_one (some n) = if Int.less n 1 then none else some n

unfoldable pub positive_number : Bytes → Option ℕ
unfolding at_least_one
positive_number s = at_least_one (atoi s)

-- A read of the news cache and its decoding, with the messages for their errors; the news go to `k`.
module _ (codec : Codec News) (fetch_error parse_error : Bytes) (w : Writer)
    (k : News → Option Writer) where
  unfoldable pub after_decode : Option News → Option Writer
  after_decode none = some (http_error parse_error 500 w)
  after_decode (some news) = k news

  unfoldable pub after_reply : Reply → Option Writer
  unfolding after_decode
  after_reply (value text) = after_decode (codec.unmarshal text)
  after_reply _ = some (http_error fetch_error 500 w)

-- The end of a handler that starts no goroutine.
unfoldable pub finish : {W : Type 0} → Option Writer → W → Option (Writer × List Task × W)
finish none world = none
finish (some w) world = some (w, [], world)
