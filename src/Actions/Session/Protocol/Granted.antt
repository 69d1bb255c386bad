-- ===== src/Actions/Session/Protocol/Granted.antt =====
-- A session belongs to the user who began it, and a callback changes no other user's document.
use mathlib.Core.List.{Memᴰ}
use mathlib.Core.List.Memᴰ
use stockic_feed_api.Common.{◌≡◌, inl, inr, refl, ap, ◌∙◌, none}
use stockic_feed_api.Go.Http.{Request}
use stockic_feed_api.Go.Text.{Bytes, codes}
use stockic_feed_api.Actions.Base.{Writer}
use stockic_feed_api.Actions.Session.Protocol.{
  Trace, Services, Separate, call_back, begun, Step, begins, calls_back, expires, Reach, here, next,
  IsGranted,
}
use stockic_feed_api.Actions.Session.Protocol.Effects.{begin-Stores, begin-users, call_back-Kept}

module _ {W : Type 0} (services : Services W) (separate : Separate services) where
  open services use {
    env, rand_int, marshal, notion, decode, error_text, sessions, db, entries, users,
  }

  Step-IsGranted : (s t : Trace W) → Step services s t → IsGranted services s → IsGranted services t
  Step-IsGranted s t (begins request w is_t) granted k x found =
      elim (begin-Stores services separate request w s.world k x (rw is_t at found)) [
        | inl new ↦ rw is_t (Memᴰ.append_left s.granted new)
        | inr old ↦ rw is_t (Memᴰ.append_right (begun services request s.world) (granted k x old))
      ]
  Step-IsGranted s t (calls_back request w is_t) granted k x found =
      rw is_t (
        granted k x ((call_back-Kept services separate request w s.world).0 k x (rw is_t at found)))
  Step-IsGranted s t (expires w fewer same is_t) granted k x found =
      rw is_t (granted k x (fewer k x (rw is_t at found)))

  Reach-IsGranted :
      (s t : Trace W) → Reach services s t → IsGranted services s → IsGranted services t
  Reach-IsGranted s t here granted = granted
  Reach-IsGranted s t (next {t = m} before step) granted =
      Step-IsGranted m t step (Reach-IsGranted s m before granted)

  -- After any logins, callbacks and expiries from a world without sessions, a callback changes the
  -- document of a user only if a session with its state was begun with this user's API key.
  pub call_back-own :
      (s t : Trace W) (request : Request) (w : Writer) (user : Bytes)
      → ((k : Bytes) → entries s.world k ≡ none)
      → Reach services s t
      → ¬ Memᴰ (request.query (codes "state"), user) t.granted
      → users (call_back services request w t.world).1 user ≡ users t.world user
  call_back-own s t request w user no_sessions reached stranger =
      (call_back-Kept services separate request w t.world).1 user (λ found.
        stranger
          (Reach-IsGranted s t reached (λ k x there. cc (no_sessions k, there)) _ user found))

  -- No session of the trace is this user's.
  abbrev pub Stranger : Bytes → Trace W → Type 0
  Stranger user s = (k : Bytes) → ¬ Memᴰ (k, user) s.granted

  Step-Stranger :
      (s t : Trace W) (user : Bytes) → Step services s t → Stranger user t → Stranger user s
  Step-Stranger s t user (begins request w is_t) stranger k m =
      stranger k (rw is_t (Memᴰ.append_right (begun services request s.world) m))
  Step-Stranger s t user (calls_back request w is_t) stranger k m = stranger k (rw is_t m)
  Step-Stranger s t user (expires w fewer same is_t) stranger k m = stranger k (rw is_t m)

  Step-own :
      (s t : Trace W) (user : Bytes)
      → Step services s t
      → IsGranted services s
      → Stranger user s
      → users t.world user ≡ users s.world user
  Step-own s t user (begins request w is_t) granted stranger =
      rw is_t (ap (λ f. f user) (begin-users services separate request w s.world))
  Step-own s t user (calls_back request w is_t) granted stranger = rw is_t (
      (call_back-Kept services separate request w s.world).1 user
        (λ found. stranger _ (granted _ user found)))
  Step-own s t user (expires w fewer same is_t) granted stranger = rw is_t (ap (λ f. f user) same)

  -- Whatever logins are begun, called back with any state and expire, from a world without sessions: the
  -- document of a user is unchanged as long as no session was begun with the user's API key.
  pub Reach-own :
      (s t : Trace W) (user : Bytes)
      → ((k : Bytes) → entries s.world k ≡ none)
      → Reach services s t
      → Stranger user t
      → users t.world user ≡ users s.world user
  Reach-own s t user no_sessions here stranger = refl
  Reach-own s t user no_sessions (next {t = m} before step) stranger =
      let stranger' = Step-Stranger m t user step stranger in
      Step-own m t user step (Reach-IsGranted s m before (λ k x there. cc (no_sessions k, there)))
        stranger'
      ∙ Reach-own s m user no_sessions before stranger'
