-- ===== src/Go/Http.antt =====
-- The parts of net/http that the handlers use: requests, and the response that a handler builds.
use stockic_feed_api.Common.{
  ℕ, Bool, true, false, List, [], ◌∷◌, ◌++◌, Option, none, some, if◌then◌else◌, ◌≡◌, refl,
}
use stockic_feed_api.Go.Text.{Bytes, codes}

-- `header` is `Header.Get` and `query` is `URL.Query().Get`: the empty text where nothing is sent.
pub record Request : Type 0 where
  pub method : Bytes
  pub path : Bytes
  pub header : Bytes → Bytes
  pub query : Bytes → Bytes
  pub remote_addr : Bytes
  pub body : Bytes

-- A piece of a response: text, or a value of type `J` that is encoded as JSON.
pub data Chunk (J : Type 0) : Type 0 where
  text : Bytes → Chunk J
  json : J → Chunk J

-- `committed` is the status code that is sent, with the Content-Type at that moment.
pub record ResponseWriter (J : Type 0) : Type 0 where
  pub connected : Bool
  pub content_type : Bytes
  pub committed : Option (ℕ × Bytes)
  pub body : List (Chunk J)

unfoldable pub commit : ℕ → Option (ℕ × Bytes) → Bytes → ℕ × Bytes
commit code none t = (code, t)
commit code (some sent) t = sent

module _ {J : Type 0} where
  unfoldable pub set_content_type : Bytes → ResponseWriter J → ResponseWriter J
  set_content_type t r = record r { content_type = t }

  -- A second call is superfluous: it changes nothing.
  unfoldable pub write_header : ℕ → ResponseWriter J → ResponseWriter J
  unfolding commit
  write_header code r = record r { committed = some (commit code r.committed r.content_type) }

  -- The first write commits status 200. The result says whether the client received the piece.
  unfoldable pub write : Chunk J → ResponseWriter J → Bool × ResponseWriter J
  unfolding write_header
  write piece r =
      let sent = write_header 200 r in
      if r.connected then (true, record sent { body = sent.body ++ piece ∷ [] }) else (false, sent)

  -- `http.Error`
  unfoldable pub http_error : Bytes → ℕ → ResponseWriter J → ResponseWriter J
  unfolding set_content_type write_header write
  http_error message code r =
      (write (text (message ++ codes "\n"))
        (write_header code (set_content_type (codes "text/plain; charset=utf-8") r))).1

  -- The response to a client that is there, before anything is written.
  abbrev pub fresh : ResponseWriter J
  fresh = record { connected = true; content_type = []; committed = none; body = [] }

  -- The status code that the client gets.
  abbrev pub status_code : ResponseWriter J → ℕ
  status_code r = elim r.committed [ none ↦ 200 | some sent ↦ sent.0 ]

-- `http.Error` on a response that is not begun sends its status.
pub status_code-http_error :
    (J : Type 0) (message : Bytes) (code : ℕ)
    → status_code (http_error message code (fresh {J = J})) ≡ code
unfolding http_error set_content_type write write_header commit
status_code-http_error J message code = refl
