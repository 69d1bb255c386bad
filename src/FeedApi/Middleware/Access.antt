-- ===== src/FeedApi/Middleware/Access.antt =====
-- Who gets through the middleware.
use stockic_feed_api.Common.{
  ◌≡◌, ◌≢◌, inl, inr, ap, ◌∙◌, Bool, true, false, [], Option, none, some, Bool-cases,
}
use stockic_feed_api.Go.Http.{Request, http_error}
use stockic_feed_api.Go.Text.{Bytes, codes, str_eq}
use stockic_feed_api.Go.Text.Laws.{not-str_eq}
use stockic_feed_api.Stores.Codec.{Codec, RoundTrip}
use stockic_feed_api.Stores.Firestore.{Document, Fetched, failed, Firestore}
use stockic_feed_api.Stores.Redis.{Redis}
use stockic_feed_api.FeedApi.Handlers.Base.{Writer, Handler, finish}
use stockic_feed_api.FeedApi.Middleware.{request_middleware}
use stockic_feed_api.FeedApi.Models.{UserStatus}
use stockic_feed_api.FeedApi.UserStatus.{status, get_cached_user_status, validate_user_api_key}
use stockic_feed_api.FeedApi.UserStatus.Backends.{Backends, status_of}
use stockic_feed_api.FeedApi.UserStatus.Coherence.{
  Coherent, IsRight, fetched, validate_user_api_key-IsRight,
}
use stockic_feed_api.FeedApi.UserStatus.Known.{validate_user_api_key-known}

module _ {W : Type 0} (cache : Redis W) (db : Firestore W) (json : Codec UserStatus)
    (backends : Backends cache db) (round_trip : RoundTrip json) where
  open backends use {users}

  pub refused-IsRight :
      (api_key : Bytes) (w : W) (f : Fetched) (a : Bool × Bool)
      → users w api_key ≡ none
      → IsRight cache db json backends round_trip api_key w f a
      → a.0 ≡ false
  refused-IsRight api_key w f (e, p) absent (inl right) =
      ap (λ (s : UserStatus). s.exists) right
      ∙ ap (λ (o : Option Document). (status_of o).exists) absent
  refused-IsRight api_key w f (e, p) absent (inr outage) = outage.1

  admitted :
      (api_key : Bytes) (w : W) (d : Document) (a : Bool × Bool)
      → users w api_key ≡ some d
      → status a.0 a.1 ≡ status_of (users w api_key)
      → a.0 ≡ true
  admitted api_key w d a there right =
      ap (λ (s : UserStatus). s.exists) right
      ∙ ap (λ (o : Option Document). (status_of o).exists) there

  module _ (next : Handler W) (request : Request) (w : Writer) (world : W)
      (coherent : Coherent cache db json backends world) where
    -- The key of the request, and the world after its validation.
    abbrev key : Bytes
    key = request.header (codes "X-API-Key")

    abbrev validated : W
    validated = (validate_user_api_key cache db json key world).1

    -- From a cache whose readable entries are the statuses of their users, a request whose API
    -- key belongs to no user is answered with 404 and never reaches the handler, whatever the
    -- handler is and whichever store fails, and such a cache is left behind.
    pub request_middleware-refuses :
        users world (request.header (codes "X-API-Key")) ≡ none
        → (message : Bytes) × (world' : W) × (request_middleware cache db json next request w world
            ≡ some (http_error message 404 w, [], world'))
          × Coherent cache db json backends world'
    unfolding request_middleware finish
    request_middleware-refuses absent =
        let promised =
          validate_user_api_key-IsRight cache db json backends round_trip key world coherent in
        let refused =
          refused-IsRight key world (fetched cache db json backends round_trip key world)
            (validate_user_api_key cache db json key world).0 absent promised.2 in
        elim (Bool-cases (str_eq key [])) [
          | inl empty ↦ (codes "No API Key", world, rw empty, coherent)
          | inr sent ↦ (codes "User doesn't exist", validated, rw (sent, refused), promised.0)
        ]

    -- The request of a user reaches the handler in the world that the validation leaves.
    pub request_middleware-validated :
        (d : Document)
        → users world (request.header (codes "X-API-Key")) ≡ some d
        → request.header (codes "X-API-Key") ≢ []
        → ((get_cached_user_status cache db json (request.header (codes "X-API-Key")) world).0
              ≡ none
            → fetched cache db json backends round_trip (request.header (codes "X-API-Key")) world
              ≢ failed)
        → request_middleware cache db json next request w world
          ≡ next request w
              (validate_user_api_key cache db json (request.header (codes "X-API-Key")) world).1
    unfolding request_middleware
    request_middleware-validated d there sent reached =
        let known =
          validate_user_api_key-known cache db json backends round_trip key world coherent
            reached in
        rw (
          not-str_eq key sent,
          admitted key world d (validate_user_api_key cache db json key world).0 there known,
        )

    -- From a cache whose readable entries are the statuses of their users, a request with the API
    -- key of a user reaches the handler, on such a cache and unchanged users, unless the cache has
    -- no readable status of the user and Firestore fails.
    pub request_middleware-admits :
        (d : Document)
        → users world (request.header (codes "X-API-Key")) ≡ some d
        → request.header (codes "X-API-Key") ≢ []
        → ((get_cached_user_status cache db json (request.header (codes "X-API-Key")) world).0
              ≡ none
            → fetched cache db json backends round_trip (request.header (codes "X-API-Key")) world
              ≢ failed)
        → (world' : W) × (request_middleware cache db json next request w world
            ≡ next request w world')
          × Coherent cache db json backends world'
          × (users world' ≡ users world)
    request_middleware-admits d there sent reached =
        let (coherent', same, right) =
          validate_user_api_key-IsRight cache db json backends round_trip key world coherent in
        (validated, request_middleware-validated d there sent reached, coherent', same)
