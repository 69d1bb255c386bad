-- ===== src/FeedApi/UserStatus/Untouched.antt =====
-- What a validation does not touch.
use stockic_feed_api.Common.{ℕ, ◌≡◌, refl, ◌∙◌, Bool, true, false, Option, none, some}
use stockic_feed_api.Go.Text.{Bytes}
use stockic_feed_api.Stores.Codec.{Codec}
use stockic_feed_api.Stores.Firestore.{Fetched, not_found, failed, snapshot, Firestore}
use stockic_feed_api.Stores.Redis.{Redis}
use stockic_feed_api.FeedApi.Models.{UserStatus}
use stockic_feed_api.FeedApi.UserStatus.{
  get_cached_user_status, store_status, cache_user_status, remember, remember_premium, after_fetch,
  after_lookup, premium_status, validate_user_api_key,
}

-- A part of the world that the operations of the cache and of Firestore leave alone.
pub record IsApart {W V : Type 0} (cache : Redis W) (db : Firestore W) (view : W → V) : Type 0 where
  pub ping_keeps : (w : W) → view (cache.ping w).1 ≡ view w
  pub get_keeps : (k : Bytes) (w : W) → view (cache.get k w).1 ≡ view w
  pub set_keeps : (k v : Bytes) (ttl : ℕ) (w : W) → view (cache.set k v ttl w).1 ≡ view w
  pub doc_keeps : (c id : Bytes) (w : W) → view (db.get_doc c id w).1 ≡ view w

module _ {W V : Type 0} (cache : Redis W) (db : Firestore W) (json : Codec UserStatus)
    (view : W → V) (apart : IsApart cache db view) (api_key : Bytes) where
  store_status-apart :
      (o : Option Bytes) (w : W) → view (store_status cache db json api_key o w).1 ≡ view w
  unfolding store_status
  store_status-apart none w = refl
  store_status-apart (some text) w = apart.set_keeps _ text _ w

  remember-apart : (e p : Bool) (w : W) → view (remember cache db json api_key e p w).1 ≡ view w
  unfolding remember cache_user_status
  remember-apart e p w = store_status-apart _ _ ∙ apart.ping_keeps w

  remember_premium-apart :
      (o : Option Bool) (w : W) → view (remember_premium cache db json api_key o w).1 ≡ view w
  unfolding remember_premium
  remember_premium-apart none w = remember-apart true false w
  remember_premium-apart (some p) w = remember-apart true p w

  after_fetch-apart :
      (f : Fetched) (w : W) → view (after_fetch cache db json api_key f w).1 ≡ view w
  unfolding after_fetch
  after_fetch-apart not_found w = remember-apart false false w
  after_fetch-apart failed w = refl
  after_fetch-apart (snapshot false d) w = remember-apart false false w
  after_fetch-apart (snapshot true d) w = remember_premium-apart (premium_status d) w

  after_lookup-apart :
      (o : Option UserStatus) (w : W) → view (after_lookup cache db json api_key o w).1 ≡ view w
  unfolding after_lookup
  after_lookup-apart (some s) w = refl
  after_lookup-apart none w = after_fetch-apart _ _ ∙ apart.doc_keeps _ api_key w

  pub validate_user_api_key-apart :
      (w : W) → view (validate_user_api_key cache db json api_key w).1 ≡ view w
  unfolding validate_user_api_key get_cached_user_status
  validate_user_api_key-apart w =
      after_lookup-apart _ _ ∙ apart.get_keeps _ (cache.ping w).1 ∙ apart.ping_keeps w
