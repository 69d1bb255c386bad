-- ===== src/Actions/Access/Refused.antt =====
-- Who does not get through the middleware of actions.
use stockic_feed_api.Common.{◌≡◌, refl, inl, inr, [], none, Bool-cases}
use stockic_feed_api.Common.State.{State}
use stockic_feed_api.Go.Http.{Request, http_error}
use stockic_feed_api.Go.Text.{Bytes, codes, str_eq}
use stockic_feed_api.Stores.Codec.{Codec, RoundTrip}
use stockic_feed_api.Stores.Firestore.{Firestore}
use stockic_feed_api.Stores.Redis.{Redis}
use stockic_feed_api.FeedApi.Middleware.Access.{refused-IsRight}
use stockic_feed_api.FeedApi.Models.{UserStatus}
use stockic_feed_api.FeedApi.UserStatus.Backends.{Backends}
use stockic_feed_api.FeedApi.UserStatus.Coherence.{Coherent, fetched, validate_user_api_key-IsRight}
use stockic_feed_api.Actions.Access.{validate_user_api_key, admit, request_middleware}
use stockic_feed_api.Actions.Base.{Writer}

module _ {W : Type 0} (cache : Redis W) (db : Firestore W) (json : Codec UserStatus)
    (backends : Backends cache db) (round_trip : RoundTrip json) {R : Type 0} (respond : Writer → R)
    (next : Request → Writer → State W R) where
  open backends use {users}

  -- A request to actions without a registered user never reaches the handler: it is answered with 404,
  -- the users are unchanged and the cache stays coherent.
  pub request_middleware-stops :
      (request : Request) (w : Writer) (world : W)
      → Coherent cache db json backends world
      → users world (request.header (codes "X-API-Key")) ≡ none
      → (message : Bytes) × (world' : W) × (request_middleware cache db json respond next request w
            world
          ≡ (respond (http_error message 404 w), world'))
        × Coherent cache db json backends world'
        × (users world' ≡ users world)
  unfolding request_middleware validate_user_api_key admit
  request_middleware-stops request w world coherent absent =
      let key = request.header (codes "X-API-Key") in
      let promised =
        validate_user_api_key-IsRight cache db json backends round_trip key world coherent in
      let refused =
        refused-IsRight cache db json backends round_trip key world
          (fetched cache db json backends round_trip key world) _ absent promised.2 in
      elim (Bool-cases (str_eq key [])) [
        | inl empty ↦ (codes "No API Key", world, rw empty refl, coherent, refl)
        | inr sent ↦
            (codes "User doesn't exist", _, rw (sent, refused) refl, promised.0, promised.1)
      ]
