-- ===== src/FeedApi/Blocked/Outcomes.antt =====
-- Who is blocked by the fallback handler, and what it answers.
use stockic_feed_api.Common.{
  ◌≡◌, inl, inr, refl, true, false, Bool, List, [], Option, some, ltb, Bool-cases, if◌then◌else◌,
}
use stockic_feed_api.Go.Http.{Request, http_error}
use stockic_feed_api.Go.Text.{Bytes, codes, str_eq}
use stockic_feed_api.Stores.Firestore.{Document, text, field, Firestore}
use stockic_feed_api.Stores.Redis.{Redis}
use stockic_feed_api.FeedApi.Blocked.{
  get_client_ip, after_query, is_blocked, save_blocked_ip_to_firebase, after_save, after_check,
  fallback_handler,
}
use stockic_feed_api.FeedApi.Handlers.Base.{Writer, Task}

-- A document that was added with a text in a field is found by a query for that text in that field
-- which follows at once, in whatever way the cache is asked in between: Firestore's queries are
-- strongly consistent.
abbrev pub FindsAdded : {W : Type 0} → Redis W → Firestore W → Type 0
FindsAdded {W} cache db =
    (collection name s j : Bytes) (d : Document) (w : W)
    → field name d ≡ some (text s)
    → (db.add collection d w).0 ≡ true
    → (db.query_first collection name s (cache.exists j (db.add collection d w).1).1).0 ≡ some true

-- The answer with a status, whatever goroutines it starts.
abbrev pub Answered : {W : Type 0} → Option (Writer × List Task × W) → Writer → Type 0
Answered {W} r w = (tasks : List Task) × (world : W) × (r ≡ some (w, tasks, world))

module _ {W : Type 0} (cache : Redis W) (db : Firestore W) where
  is_blocked-finds :
      (ip : Bytes) (world : W)
      → (db.query_first (codes "blocked") (codes "ip") ip (cache.exists ip world).1).0 ≡ some true
      → (is_blocked cache db ip world).0.0 ≡ true
  unfolding is_blocked after_query
  is_blocked-finds ip world found = elim (Bool-cases (ltb 0 (cache.exists ip world).0)) [
    | inl cached ↦ rw cached
    | inr fresh ↦ rw (fresh, found)
  ]

  after_check-blocked :
      (ip : Bytes) (w : Writer) (r : (Bool × List Task) × W)
      → r.0.0 ≡ true
      → after_check cache db ip w r ≡ some (http_error (codes "You are Blocked") 403 w, r.0.1, r.1)
  unfolding after_check
  after_check-blocked ip w ((true, tasks), world) h = refl
  after_check-blocked ip w ((false, tasks), world) h = cc

  -- A stored address is found by the query of the next check.
  save_blocked_ip_to_firebase-finds :
      (ip j : Bytes) (w : W)
      → FindsAdded cache db
      → (save_blocked_ip_to_firebase cache db ip w).0 ≡ true
      → (db.query_first
          (codes "blocked")
          (codes "ip")
          ip
          (cache.exists j (save_blocked_ip_to_firebase cache db ip w).1).1).0
        ≡ some true
  unfolding save_blocked_ip_to_firebase str_eq
  save_blocked_ip_to_firebase-finds ip j w finds saved =
      finds (codes "blocked") (codes "ip") ip j _ w refl saved

  module _ (request : Request) (w : Writer) (world : W) where
    -- An address that is blocked is answered with 403 and is not stored again.
    pub fallback_handler-blocked :
        (is_blocked cache db (get_client_ip request) world).0.0 ≡ true
        → fallback_handler cache db request w world
          ≡ some (
            http_error (codes "You are Blocked") 403 w,
            (is_blocked cache db (get_client_ip request) world).0.1,
            (is_blocked cache db (get_client_ip request) world).1,
          )
    unfolding fallback_handler
    fallback_handler-blocked h = after_check-blocked (get_client_ip request) w _ h

    -- An address that is not blocked is stored: the answer is 404, or 500 where storing fails.
    pub fallback_handler-stores :
        (stored : Bool)
        → (is_blocked cache db (get_client_ip request) world).0 ≡ (false, [])
        → (save_blocked_ip_to_firebase cache db
            (get_client_ip request)
            (is_blocked cache db (get_client_ip request) world).1).0
          ≡ stored
        → fallback_handler cache db request w world
          ≡ some (
            (if stored
                then http_error (codes "Invalid Endpoint Accessed, You are Blocked") 404 w
                else http_error (codes "Internal Server Error") 500 w),
            [],
            (save_blocked_ip_to_firebase cache db
                (get_client_ip request)
                (is_blocked cache db (get_client_ip request) world).1).1,
          )
    unfolding fallback_handler after_check after_save
    fallback_handler-stores true h saved = rw (h, saved)
    fallback_handler-stores false h saved = rw (h, saved)

    -- An address that is not blocked and asks for an unknown path is answered with 404 once it is
    -- stored, and the next request from the same address that reaches the fallback handler is
    -- answered with 403, if Firestore's queries find new
    -- documents by their fields.
    pub fallback_handler_twice :
        (again : Request) (w' : Writer)
        → FindsAdded cache db
        → get_client_ip again ≡ get_client_ip request
        → (is_blocked cache db (get_client_ip request) world).0 ≡ (false, [])
        → (save_blocked_ip_to_firebase cache db
            (get_client_ip request)
            (is_blocked cache db (get_client_ip request) world).1).0
          ≡ true
        → (world' : W) × (fallback_handler cache db request w world
            ≡ some
                (http_error (codes "Invalid Endpoint Accessed, You are Blocked") 404 w, [], world'))
          × Answered
              (fallback_handler cache db again w' world')
              (http_error (codes "You are Blocked") 403 w')
    unfolding fallback_handler
    fallback_handler_twice again w' finds same h saved =
        let ip = get_client_ip request in
        let checked = (is_blocked cache db ip world).1 in
        let world' = (save_blocked_ip_to_firebase cache db ip checked).1 in
        let blocked =
          is_blocked-finds (get_client_ip again) world'
            (rw same (save_blocked_ip_to_firebase-finds ip ip checked finds saved)) in
        (
          world',
          fallback_handler-stores true h saved,
          (_, _, after_check-blocked (get_client_ip again) w' _ blocked),
        )
