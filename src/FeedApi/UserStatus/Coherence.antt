-- ===== src/FeedApi/UserStatus/Coherence.antt =====
-- The cache of user statuses agrees with the users in Firestore, and so do the answers.
use stockic_feed_api.Common.{
  ◌≡◌, ◌⊎◌, inl, inr, refl, ap, ◌∙◌, Bool, true, false, Option, none, some, if◌then◌else◌,
}
use stockic_feed_api.Go.Text.{Bytes, codes}
use stockic_feed_api.Stores.Codec.{Codec, RoundTrip}
use stockic_feed_api.Stores.Firestore.{Fetched, not_found, failed, snapshot, Firestore}
use stockic_feed_api.Stores.Redis.{Redis, Reply, value, missing, failure}
use stockic_feed_api.FeedApi.Models.{UserStatus}
use stockic_feed_api.FeedApi.UserStatus.{
  api_key_cache_expiration, cache_key, premium_status, status, read_reply, get_cached_user_status,
  store_status, cache_user_status, remember, remember_premium, after_fetch, after_lookup,
  validate_user_api_key,
}
use stockic_feed_api.FeedApi.UserStatus.Backends.{
  Backends, premium_of, status_of, cache_key_injective,
}

module _ {W : Type 0} (cache : Redis W) (db : Firestore W) (json : Codec UserStatus)
    (backends : Backends cache db) where
  open backends use {entries, users}

  -- Every readable entry of the cache is the status of its user.
  abbrev pub Coherent : W → Type 0
  Coherent w =
      (key x : Bytes) (s : UserStatus)
      → entries w (cache_key key) ≡ some x
      → json.unmarshal x ≡ some s
      → s ≡ status_of (users w key)

  -- Losing entries keeps the cache coherent.
  pub fewer-Coherent :
      (w w' : W)
      → Coherent w
      → ((k x : Bytes) → entries w' k ≡ some x → entries w k ≡ some x)
      → users w' ≡ users w
      → Coherent w'
  fewer-Coherent w w' coherent fewer same key x s cached read =
      rw same (coherent key x s (fewer (cache_key key) x cached) read)

  -- The cache stays coherent, and the users are as before.
  abbrev pub Keeps : W → W → Type 0
  Keeps w w' = Coherent w' × (users w' ≡ users w)

  ping-Keeps : (w : W) → Coherent w → Keeps w (cache.ping w).1
  ping-Keeps w coherent = (
    fewer-Coherent w (cache.ping w).1 coherent (backends.is_cache.ping_keeps w)
        (backends.ping_users w),
    backends.ping_users w,
  )

  get-Keeps : (k : Bytes) (w : W) → Coherent w → Keeps w (cache.get k w).1
  get-Keeps k w coherent = (
    fewer-Coherent w (cache.get k w).1 coherent (backends.is_cache.get_keeps k w)
        (backends.get_users k w),
    backends.get_users k w,
  )

  pub get_doc-Keeps : (c id : Bytes) (w : W) → Coherent w → Keeps w (db.get_doc c id w).1
  get_doc-Keeps c id w coherent = (
    fewer-Coherent w (db.get_doc c id w).1 coherent (λ k x h. rw backends.doc_entries at h)
        (backends.doc_users c id w),
    backends.doc_users c id w,
  )

  Keeps-trans : (a b c : W) → Keeps a b → Keeps b c → Keeps a c
  Keeps-trans a b c (_, p) (coherent, q) = (coherent, q ∙ p)

  module _ (round_trip : RoundTrip json) (api_key : Bytes) where
    store_status-Keeps :
        (s : UserStatus) (w : W) (text : Option Bytes)
        → Coherent w
        → s ≡ status_of (users w api_key)
        → json.marshal s ≡ text
        → Keeps w (store_status cache db json api_key text w).1
    unfolding store_status
    store_status-Keeps s w none coherent right e = (coherent, refl)
    store_status-Keeps s w (some text) coherent right e = (
      λ key x s' cached read.
          let same = backends.set_users (cache_key api_key) text api_key_cache_expiration w in
          rw same
            (elim (backends.is_cache.set_writes (cache_key api_key) text api_key_cache_expiration w
              (cache_key key) x cached) [
                | inl written ↦
                    let same_key = cache_key_injective key api_key written.0 in
                    let same_text : json.unmarshal x ≡ some s =
                      ap json.unmarshal written.1 ∙ round_trip s text e in
                    rw same_key (cc)
                | inr old ↦ coherent key x s' old read
              ]),
      backends.set_users (cache_key api_key) text api_key_cache_expiration w,
    )

    cache_user_status-Keeps :
        (s : UserStatus) (w : W)
        → Coherent w
        → s ≡ status_of (users w api_key)
        → Keeps w (cache_user_status cache db json api_key s w).1
    unfolding cache_user_status
    cache_user_status-Keeps s w coherent right =
        let pinged = ping-Keeps w coherent in
        Keeps-trans w (cache.ping w).1 _ pinged (
          store_status-Keeps s (cache.ping w).1 (json.marshal s) pinged.0
            (rw backends.ping_users right) refl)

    -- A right answer: the status of the user, or no access where Firestore could not be read.
    abbrev pub IsRight : W → Fetched → Bool × Bool → Type 0
    IsRight w f (e, p) =
        (status e p ≡ status_of (users w api_key)) ⊎ ((f ≡ failed) × (e ≡ false) × (p ≡ false))

    abbrev Promised : W → Fetched → (Bool × Bool) × W → Type 0
    Promised w f (a, w') = Keeps w w' × IsRight w f a

    remember-Promised :
        (e p : Bool) (f : Fetched) (w : W)
        → Coherent w
        → status e p ≡ status_of (users w api_key)
        → Promised w f (remember cache db json api_key e p w)
    unfolding remember
    remember-Promised e p f w coherent right =
        (cache_user_status-Keeps (status e p) w coherent right, inl right)

    remember_premium-Promised :
        (p : Option Bool) (f : Fetched) (w : W)
        → Coherent w
        → status true (premium_of p) ≡ status_of (users w api_key)
        → Promised w f (remember_premium cache db json api_key p w)
    unfolding remember_premium
    remember_premium-Promised none = remember-Promised true false
    remember_premium-Promised (some p) = remember-Promised true p

    -- What a result of `get_doc` says of the user.
    abbrev Says : Fetched → W → Type 0
    Says not_found w = users w api_key ≡ none
    Says failed w = Unit {0}
    Says (snapshot e d) w = users w api_key ≡ (if e then some d else none)

    after_fetch-Promised :
        (f : Fetched) (w : W)
        → Coherent w
        → Says f w
        → Promised w f (after_fetch cache db json api_key f w)
    unfolding after_fetch
    after_fetch-Promised not_found w coherent says =
        remember-Promised false false not_found w coherent (rw says)
    after_fetch-Promised failed w coherent says = ((coherent, refl), inr (refl, refl, refl))
    after_fetch-Promised (snapshot false d) w coherent says =
        remember-Promised false false (snapshot false d) w coherent (rw says)
    after_fetch-Promised (snapshot true d) w coherent says =
        remember_premium-Promised (premium_status d) (snapshot true d) w coherent (rw says)

    get_doc-Says :
        (w : W) (f : Fetched)
        → (db.get_doc (codes "users") api_key w).0 ≡ f
        → Says f (db.get_doc (codes "users") api_key w).1
    get_doc-Says w not_found e = rw backends.doc_users (backends.not_found_absent api_key w e)
    get_doc-Says w failed e = tt
    get_doc-Says w (snapshot b d) e =
        rw backends.doc_users (backends.snapshot_present api_key w b d e)

    after_lookup-Promised :
        (o : Option UserStatus) (w : W)
        → Coherent w
        → ((s : UserStatus) → o ≡ some s → s ≡ status_of (users w api_key))
        → Promised w
            (db.get_doc (codes "users") api_key w).0
            (after_lookup cache db json api_key o w)
    unfolding after_lookup
    after_lookup-Promised (some s) w coherent hit = ((coherent, refl), inl (hit s refl))
    after_lookup-Promised none w coherent hit =
        let f = (db.get_doc (codes "users") api_key w).0 in
        let w' = (db.get_doc (codes "users") api_key w).1 in
        let kept = get_doc-Keeps (codes "users") api_key w coherent in
        let (keeps, right) = after_fetch-Promised f w' kept.0 (get_doc-Says w f refl) in
        (Keeps-trans w w' _ kept keeps, rw kept.1 at right)

    read_reply-hit :
        (r : Reply) (s : UserStatus)
        → read_reply cache db json r ≡ some s
        → (x : Bytes) × (r ≡ value x) × (json.unmarshal x ≡ some s)
    unfolding read_reply
    read_reply-hit (value x) s e = (x, refl, e)
    read_reply-hit missing s e = cc
    read_reply-hit failure s e = cc

    -- A cached status is the status of the user.
    pub get_cached_user_status-hit :
        (w : W) (s : UserStatus)
        → Coherent w
        → (get_cached_user_status cache db json api_key w).0 ≡ some s
        → s ≡ status_of (users w api_key)
    unfolding get_cached_user_status
    get_cached_user_status-hit w s coherent e =
        let pinged = ping-Keeps w coherent in
        let (x, replied, read) = read_reply-hit _ s e in
        rw (← pinged.1) (
          pinged.0 api_key x s
            (backends.is_cache.get_reads (cache_key api_key) (cache.ping w).1 x replied) read)

    get_cached_user_status-Keeps :
        (w : W) → Coherent w → Keeps w (get_cached_user_status cache db json api_key w).1
    unfolding get_cached_user_status
    get_cached_user_status-Keeps w coherent =
        let pinged = ping-Keeps w coherent in
        Keeps-trans w (cache.ping w).1 _ pinged
          (get-Keeps (cache_key api_key) (cache.ping w).1 pinged.0)

    -- What Firestore answers when the cache has been asked.
    unfoldable pub fetched : W → Fetched
    fetched w =
        (db.get_doc (codes "users") api_key (get_cached_user_status cache db json api_key w).1).0

    -- From a cache whose readable entries are the statuses of their users, the validation of an
    -- API key answers the status of the user's document in Firestore, or "no user" where
    -- Firestore failed, and leaves such a cache and the same users behind, also when the cache
    -- loses entries or fails.
    pub validate_user_api_key-IsRight :
        (w : W)
        → Coherent w
        → Coherent (validate_user_api_key cache db json api_key w).1
          × (users (validate_user_api_key cache db json api_key w).1 ≡ users w)
          × IsRight w (fetched w) (validate_user_api_key cache db json api_key w).0
    unfolding validate_user_api_key fetched
    validate_user_api_key-IsRight w coherent =
        let (o, w') = get_cached_user_status cache db json api_key w in
        let kept = get_cached_user_status-Keeps w coherent in
        let ((coherent', same), right) =
          after_lookup-Promised o w' kept.0
            (λ s e. rw kept.1 (get_cached_user_status-hit w s coherent e)) in
        (coherent', same ∙ kept.1, rw kept.1 at right)
