-- ===== src/Actions/Base.antt =====
-- What the handlers of actions/handlers/handlers.go share. Log messages are left out.
use stockic_feed_api.Common.{ℕ, Bool, true, false}
use stockic_feed_api.Common.State.{State}
use stockic_feed_api.Go.Http.{
  Request, ResponseWriter, text, json, write, write_header, set_content_type, http_error,
}
use stockic_feed_api.Go.Text.{Bytes, codes}
use stockic_feed_api.Actions.Models.{BookmarkResponse, OauthNotionResponse}

-- The values that the handlers encode; `message` is a map with this one entry.
pub data Json : Type 0 where
  message : Bytes → Json
  bookmarks : BookmarkResponse → Json
  oauth : OauthNotionResponse → Json

abbrev pub Writer : Type 0
Writer = ResponseWriter Json

-- A handler changes the world and returns the response.
abbrev pub Handler : Type 0 → Type 0
Handler W = Request → Writer → State W Writer

-- `http.Error` after a failed write; the status is already sent.
after_encode : Bool × Writer → Writer
after_encode (true, w) = w
after_encode (false, w) = http_error (codes "{\"error\": \"internal server error\"}") 500 w

-- The end of the handlers that answer with a message.
unfoldable pub deliver_message : Bytes → Writer → Writer
unfolding after_encode
deliver_message s w = after_encode (write (json (message s)) (write_header 200 w))

unfoldable pub send_response : BookmarkResponse → ℕ → Writer → Writer
send_response response code w =
    (write (json (bookmarks response))
      (write_header code (set_content_type (codes "application/json") w))).1

unfoldable pub ping : {W : Type 0} → Handler W
ping request w world =
    (deliver_message (codes "pong") (set_content_type (codes "text/plain") w), world)

unfoldable pub fallback_handler : {W : Type 0} → Handler W
fallback_handler request w world =
    ((write (text (codes "Fallback Handler\n")) (set_content_type (codes "text/plain") w)).1, world)
