-- ===== src/FeedApi/UserStatus/Known.antt =====
-- When a validation answers the status of the user.
use stockic_feed_api.Common.{
  ◌≡◌, ◌≢◌, inl, inr, refl, ap, ◌∙◌, Bool, Option, none, some, Option-cases,
}
use stockic_feed_api.Go.Text.{Bytes}
use stockic_feed_api.Stores.Codec.{Codec, RoundTrip}
use stockic_feed_api.Stores.Firestore.{failed, Firestore}
use stockic_feed_api.Stores.Redis.{Redis}
use stockic_feed_api.FeedApi.Models.{UserStatus}
use stockic_feed_api.FeedApi.UserStatus.{
  status, get_cached_user_status, after_lookup, validate_user_api_key,
}
use stockic_feed_api.FeedApi.UserStatus.Backends.{Backends, status_of}
use stockic_feed_api.FeedApi.UserStatus.Coherence.{
  Coherent, fetched, get_cached_user_status-hit, validate_user_api_key-IsRight,
}

module _ {W : Type 0} (cache : Redis W) (db : Firestore W) (json : Codec UserStatus)
    (backends : Backends cache db) (round_trip : RoundTrip json) (api_key : Bytes) where
  after_lookup-hit :
      (o : Option UserStatus) (s : UserStatus) (w : W)
      → o ≡ some s
      → (after_lookup cache db json api_key o w).0 ≡ (s.exists, s.premium)
  unfolding after_lookup
  after_lookup-hit o s w hit = rw hit refl

  -- The status of the user is answered if Firestore answers where the cache has no status.
  pub validate_user_api_key-known :
      (w : W)
      → Coherent cache db json backends w
      → ((get_cached_user_status cache db json api_key w).0 ≡ none
          → fetched cache db json backends round_trip api_key w ≢ failed)
      → status
          (validate_user_api_key cache db json api_key w).0.0
          (validate_user_api_key cache db json api_key w).0.1
        ≡ status_of (backends.users w api_key)
  unfolding validate_user_api_key
  validate_user_api_key-known w coherent answers =
      elim (Option-cases (get_cached_user_status cache db json api_key w).0) [
        | inl missed ↦
            elim (validate_user_api_key-IsRight cache db json backends round_trip api_key w
              coherent).2 [ inl right ↦ right | inr outage ↦ absurd (answers missed outage.0) ]
        | inr (s, hit) ↦
            ap (λ (a : Bool × Bool). status a.0 a.1)
              (after_lookup-hit _ s (get_cached_user_status cache db json api_key w).1 hit)
            ∙ get_cached_user_status-hit cache db json backends round_trip api_key w s coherent hit
      ]
