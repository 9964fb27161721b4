-- ===== src/CachedStorage/Offline.antt =====
-- The storage behind a Redis cache that has no connection.
use mirai_app.Prelude.{ℕ, zero, suc, ◌+◌, ◌*◌, ◌^◌, ◌≡◌, refl, true, false, arith}
use mirai_app.RedisCache.Client.{Text, RedisClient}
use mirai_app.RedisCache.{RedisCache, redis_ops, acquire_lock}
use mirai_app.CachedStorage.Keys.{is_library}
use mirai_app.CachedStorage.{
  Document, Payload, BaseAdapter, World, lock_failed, ensure_initialized, write_library, write_json,
  max_retries,
}

module _ {R S B : Type 0} (client : RedisClient R (Payload B)) (base : BaseAdapter S B)
    (stringify : Payload B → Text) (ids : ℕ → Text) where
  offline_rounds :
      (left retries now : ℕ) (path : Text) (d : Document B) (w : World (RedisCache R) S)
      → w.cache.connected ≡ false
      → write_library (redis_ops client stringify) base stringify ids left retries now path d w
        ≡ (lock_failed path, w)
  unfolding write_library acquire_lock
  offline_rounds zero retries now path d w off = refl
  offline_rounds (suc left) retries now path d w off =
      ground (arith, offline_rounds left (retries + 1) (now + 100 * 2 ^ retries) path d w off)

  -- Without a connection no library is ever written: every write of the index fails for the lock, and
  -- leaves the storage as it was.
  pub offline_library_write :
      (now : ℕ) (path : Text) (d : Document B) (w : World (RedisCache R) S)
      → is_library path ≡ true
      → (ensure_initialized (redis_ops client stringify) base stringify ids w).cache.connected
        ≡ false
      → let r = write_json (redis_ops client stringify) base stringify ids now path d w in
        (r.0 ≡ lock_failed path) × (r.1.base ≡ w.base)
  unfolding write_json ensure_initialized
  offline_library_write now path d w lib off =
      let w' = ensure_initialized (redis_ops client stringify) base stringify ids w in
      ground (arith, lib, offline_rounds max_retries 0 now path d w' off)
