-- ===== src/Actions/Session/Protocol/Effects.antt =====
-- What a request that begins a login and a callback leave of the sessions and the documents.
use mathlib.Core.List.{Memᴰ}
use stockic_feed_api.Common.{
  ℕ, zero, suc, ◌≡◌, ◌≢◌, ◌⊎◌, inl, inr, refl, sym, ap, ◌∙◌, List, [], ◌∷◌, Option, none, some,
  get_elem?, Bool-cases,
}
use stockic_feed_api.Common.State.{State}
use stockic_feed_api.Go.Http.{Request}
use stockic_feed_api.Go.Text.{Bytes, codes, str_eq}
use stockic_feed_api.Go.Text.Laws.{str_eq→eq}
use stockic_feed_api.Stores.Firestore.{Value}
use stockic_feed_api.Stores.Redis.{Reply, value, missing, failure}
use stockic_feed_api.Actions.Base.{Writer}
use stockic_feed_api.Actions.Session.{
  Generated, generated, error, panic, draw_char, draw, generate_session_key, store_session,
  after_key, oauth_notion_create_auth_session, after_session, after_auth, after_notion,
  send_request, oauth_notion_callback, notion_session_expiration,
}
use stockic_feed_api.Actions.Session.Protocol.{
  Services, Separate, session_of, begin, call_back, begun,
}

module _ {W : Type 0} (services : Services W) (separate : Separate services) where
  open services use {
    env, rand_int, marshal, notion, decode, error_text, sessions, db, entries, users,
  }

  -- Nothing that the generation of a key does is seen in `view`.
  module _ {V : Type 0} (view : W → V)
      (rand_keeps : (n : ℕ) (w : W) → view (rand_int n w).1 ≡ view w) where
    draw-keeps :
        (charset : Bytes) (rest : State W Generated) (o : Option ℕ) (w : W)
        → ((w : W) → view (rest w).1 ≡ view w)
        → view (draw rand_int charset rest o w).1 ≡ view w
    unfolding draw draw_char
    draw-keeps charset rest none w h = refl
    draw-keeps charset rest (some i) w h = go (get_elem? charset i)
      where
        go : (o : Option ℕ) → view (draw_char rand_int rest o w).1 ≡ view w
        go none = refl
        go (some c) = h w

    generate_session_key-keeps :
        (n : ℕ) (charset : Bytes) (w : W)
        → view (generate_session_key rand_int n charset w).1 ≡ view w
    unfolding generate_session_key
    generate_session_key-keeps zero charset w = refl
    generate_session_key-keeps (suc n) charset w =
        draw-keeps charset _ _ _ (generate_session_key-keeps n charset) ∙ rand_keeps _ w

  -- What holds of the sessions after a session was stored, or not.
  abbrev pub Stores : List (Bytes × Bytes) → W → W → Type 0
  Stores new before after =
      (k x : Bytes) → entries after k ≡ some x → Memᴰ (k, x) new ⊎ (entries before k ≡ some x)

  set-Stores :
      (token api_key : Bytes) (w : W)
      → Stores ((token, api_key) ∷ []) w (sessions.set token api_key notion_session_expiration w).1
  set-Stores token api_key w k x found =
      elim (separate.cache.set_writes token api_key notion_session_expiration w k x found) [
        | inl (same_key, same_user) ↦ inl (Memᴰ.head (cc (same_key, same_user)))
        | inr old ↦ inr old
      ]

  after_key-Stores :
      (url api_key : Bytes) (w : Writer) (key : Generated) (world : W)
      → Stores
          (session_of services api_key key)
          world
          (after_key env rand_int sessions url api_key w key world).1
  unfolding after_key store_session
  after_key-Stores url api_key w (generated token) world = set-Stores token api_key world
  after_key-Stores url api_key w error world = set-Stores [] api_key world
  after_key-Stores url api_key w panic world = λ k x found. inr found

  pub begin-Stores :
      (request : Request) (w : Writer) (world : W)
      → Stores (begun services request world) world (begin services request w world).1
  unfolding oauth_notion_create_auth_session
  begin-Stores request w world = elim (Bool-cases (str_eq (env (codes "NOTION_OAUTH_URL")) [])) [
    | inl no_url ↦ λ k x found. inr (rw no_url at found)
    | inr url ↦ λ k x found.
        elim (after_key-Stores (env (codes "NOTION_OAUTH_URL")) (request.header (codes "X-API-Key"))
          _ _ _ k x (rw url at found)) [
            | inl stored ↦ inl (rw url stored)
            | inr old ↦ inr (
                sym (
                  ap (λ f. f k)
                    (generate_session_key-keeps entries separate.rand_entries _ _ world))
                ∙ old)
          ]
  ]

  after_key-users :
      (url api_key : Bytes) (w : Writer) (key : Generated) (world : W)
      → users (after_key env rand_int sessions url api_key w key world).1 ≡ users world
  unfolding after_key store_session
  after_key-users url api_key w (generated token) world = separate.set_users _ _ _ world
  after_key-users url api_key w error world = separate.set_users _ _ _ world
  after_key-users url api_key w panic world = refl

  pub begin-users :
      (request : Request) (w : Writer) (world : W)
      → users (begin services request w world).1 ≡ users world
  unfolding oauth_notion_create_auth_session
  begin-users request w world = elim (Bool-cases (str_eq (env (codes "NOTION_OAUTH_URL")) [])) [
    | inl no_url ↦ rw no_url refl
    | inr url ↦
        rw url (
          after_key-users _ _ _ _ _
          ∙ generate_session_key-keeps users separate.rand_users _ _ world)
  ]

  -- From `before` to `after` no session is added, and no document changes but that of the user whose
  -- session has this key.
  abbrev pub Kept : Bytes → W → W → Type 0
  Kept state before after =
      ((k x : Bytes) → entries after k ≡ some x → entries before k ≡ some x)
      × ((user : Bytes) → entries before state ≢ some user → users after user ≡ users before user)

  Kept-trans : (state : Bytes) (a b c : W) → Kept state a b → Kept state b c → Kept state a c
  Kept-trans state a b c (fewer, same) (fewer', same') = (
    λ k x found. fewer k x (fewer' k x found),
    λ user other. same' user (λ found. other (fewer state user found)) ∙ same user other,
  )

  get-Kept : (state k : Bytes) (world : W) → Kept state world (sessions.get k world).1
  get-Kept state k world = (
    separate.cache.get_keeps k world,
    λ user other. ap (λ f. f user) (separate.get_users k world),
  )

  notion-Kept :
      (state credentials body : Bytes) (world : W)
      → Kept state world (notion credentials body world).1
  notion-Kept state credentials body world = (
    λ k x found. rw separate.notion_entries at found,
    λ user other. ap (λ f. f user) (separate.notion_users credentials body world),
  )

  after_session-Kept :
      (state : Bytes) (auth_result : Value) (w : Writer) (r : Reply) (world before : W)
      → Kept state before world
      → ((key : Bytes) → r ≡ value key → entries before state ≡ some key)
      → Kept state before
          (after_session env marshal notion decode error_text sessions db auth_result w r world).1
  unfolding after_session
  after_session-Kept state auth_result w (value key) world before (fewer, same) found = (
    λ k x there. fewer k x (rw separate.doc_entries at there),
    λ user other. elim (Bool-cases (str_eq key user)) [
      | inl own ↦ absurd (other (found key refl ∙ ap some (str_eq→eq key user own)))
      | inr differs ↦ separate.doc_others key _ world user differs ∙ same user other
    ],
  )
  after_session-Kept state auth_result w missing world before kept found = kept
  after_session-Kept state auth_result w failure world before kept found = kept

  after_auth-Kept :
      (state : Bytes) (w : Writer) (a : Bytes ⊎ Value) (world : W)
      → Kept state world
          (after_auth env marshal notion decode error_text sessions db state w a world).1
  unfolding after_auth
  after_auth-Kept state w (inl e) world = (λ k x found. found, λ user other. refl)
  after_auth-Kept state w (inr auth_result) world =
      after_session-Kept state auth_result w _ _ world (get-Kept state state world)
        (λ key e. separate.cache.get_reads state world key e)

  after_notion-Kept :
      (state : Bytes) (w : Writer) (o : Option Bytes) (world : W)
      → Kept state world
          (after_notion env marshal notion decode error_text sessions db state w o world).1
  unfolding after_notion
  after_notion-Kept state w none world = (λ k x found. found, λ user other. refl)
  after_notion-Kept state w (some answer) world = after_auth-Kept state w _ world

  send_request-Kept :
      (state : Bytes) (w : Writer) (o : Option Bytes) (world : W)
      → Kept state world
          (send_request env marshal notion decode error_text sessions db state w o world).1
  unfolding send_request
  send_request-Kept state w none world = (λ k x found. found, λ user other. refl)
  send_request-Kept state w (some body) world =
      Kept-trans state world _ _ (notion-Kept state _ body world) (after_notion-Kept state w _ _)

  pub call_back-Kept :
      (request : Request) (w : Writer) (world : W)
      → Kept (request.query (codes "state")) world (call_back services request w world).1
  unfolding oauth_notion_callback
  call_back-Kept request w world = send_request-Kept _ _ _ world
