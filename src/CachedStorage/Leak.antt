-- ===== src/CachedStorage/Leak.antt =====
-- A library write whose update of the cache fails keeps the lock that it holds.
use mathlib.Core.Path.{subst}
use mirai_app.Prelude.{ℕ, zero, suc, ◌+◌, ◌*◌, ◌^◌, ◌<◌, ◌≡◌, refl, sym, true, false, some, arith}
use mirai_app.Prelude.Js.{done, units, same_text, is_nonempty}
use mirai_app.RedisCache.Client.{Text, CacheEntry, RedisClient, IsRedis}
use mirai_app.RedisCache.{RedisCache, redis_ops, lock_name, acquire_lock, get, set}
use mirai_app.RedisCache.Lock.{IsKept, get-IsKept, set-IsKept, acquire-IsKept}
use mirai_app.RedisCache.Exclusion.{acquired-IsKept, refused}
use mirai_app.CachedStorage.Keys.{is_library, cache_key, library_key}
use mirai_app.CachedStorage.{
  Document, Payload, document, BaseAdapter, World, WriteResult, lock_failed, ensure_initialized,
  tagged, settle_library, write_locked, write_library, write_json, lock_key,
}

keys_apart : same_text library_key (lock_name lock_key) ≡ false
unfolding same_text units
keys_apart = refl

cache_key-library : (path : Text) → is_library path ≡ true → cache_key path ≡ library_key
unfolding cache_key is_library
cache_key-library path lib = ground (arith, lib)

library_apart :
    (path : Text) → is_library path ≡ true → same_text (cache_key path) (lock_name lock_key) ≡ false
library_apart path lib = ground (arith, cache_key-library path lib, keys_apart)

module _ {R S B : Type 0} (client : RedisClient R (Payload B)) (base : BaseAdapter S B)
    (stringify : Payload B → Text) (ids : ℕ → Text) (laws : IsRedis client) where
  -- Somebody holds the lock of the library under an id.
  abbrev pub IsLocked : Text → ℕ → World (RedisCache R) S → Type 0
  IsLocked id deadline w =
      IsKept client stringify laws (lock_name lock_key) id deadline w.cache.redis

  -- What a write that is refused the lock leaves.
  abbrev pub Refused : Text → Text → ℕ → S → WriteResult × World (RedisCache R) S → Type 0
  Refused path id deadline s r =
      (r.0 ≡ lock_failed path) × (r.1.base ≡ s) × IsLocked id deadline r.1

  -- The waits of the attempts that are left.
  pub waits : ℕ → ℕ → ℕ
  waits zero retries = 0
  waits (suc left) retries = 100 * 2 ^ retries + waits left (retries + 1)

  rounds-Refused :
      (left retries now : ℕ) (path : Text) (d : Document B) (id : Text) (deadline : ℕ)
      (w : World (RedisCache R) S)
      → now + waits left retries < deadline
      → IsLocked id deadline w
      → Refused path id deadline w.base
          (write_library (redis_ops client stringify) base stringify ids left retries now path d w)
  unfolding write_library waits
  rounds-Refused zero retries now path d id deadline w early k = (refl, refl, k)
  rounds-Refused (suc left) retries now path d id deadline w early k =
      let got = acquire_lock client stringify now lock_key 10 (ids retries) w.cache in
      let w1 : World (RedisCache R) S = record w { cache = got.1 } in
      let later = now + 100 * 2 ^ retries in
      let eq : write_library (redis_ops client stringify) base stringify ids (suc left) retries now
            path d w
          ≡ write_library (redis_ops client stringify) base stringify ids left (retries + 1) later
              path d w1 =
        ground (
          arith,
          refused client stringify laws lock_key id (ids retries) deadline now 10 w.cache k
              (omega (arith, early)),
        ) in
      subst (λ (r : WriteResult × World (RedisCache R) S). Refused path id deadline w.base r)
        (sym eq)
        (rounds-Refused left (retries + 1) later path d id deadline w1 (omega (arith, early)) (
          acquire-IsKept client stringify laws (lock_name lock_key) id deadline now lock_key 10
            (ids retries) w.cache (omega (arith, early)) k))

  two_waits : waits 2 1 ≡ 600
  unfolding waits
  two_waits = refl

  -- Over a client that does what Redis documents, with an adapter that is initialized: if the update of
  -- the cache fails behind a library's write that has the lock, and there was an entry with a tag, then the write reports that it did not get the lock, although the storage has
  -- the new library; and its own lock stays held, for ten seconds from the write on.
  pub failed_update_keeps_lock :
      (now : ℕ) (path : Text) (d : Document B) (w : World (RedisCache R) S) (s : S)
      (e : CacheEntry (Payload B))
      → w.initialized ≡ true
      → is_library path ≡ true
      → let got = acquire_lock client stringify now lock_key 10 (ids 0) w.cache in
        let seen = get client stringify now (cache_key path) got.1 in
        let d' = tagged (redis_ops client stringify) base stringify ids now d in
        got.0.0 ≡ true
        → seen.0 ≡ some e
        → is_nonempty e.etag ≡ true
        → base.write_json path d' w.base ≡ (done tt, s)
        → (set client stringify now (cache_key path) (document d') (some e.etag) 300 seen.1).0.0
          ≡ false
        → Refused path
            (ids 0)
            (now + 10000)
            s
            (write_json (redis_ops client stringify) base stringify ids now path d w)
  unfolding write_json write_library write_locked settle_library ensure_initialized
  failed_update_keeps_lock now path d w s e i lib acquired hit tag wrote failing =
      let got = acquire_lock client stringify now lock_key 10 (ids 0) w.cache in
      let seen = get client stringify now (cache_key path) got.1 in
      let d' = tagged (redis_ops client stringify) base stringify ids now d in
      let after =
        set client stringify now (cache_key path) (document d') (some e.etag) 300 seen.1 in
      let w1 : World (RedisCache R) S = record w { cache = after.1; base = s } in
      let apart = library_apart path lib in
      let k0 = acquired-IsKept client stringify laws now lock_key 10 (ids 0) w.cache acquired in
      let k1 =
        get-IsKept client stringify laws (lock_name lock_key) (ids 0) (now + 1000 * 10) now
          (cache_key path) got.1 apart k0 in
      let k2 : IsLocked (ids 0) (now + 10000) w1 =
        set-IsKept client stringify laws (lock_name lock_key) (ids 0) (now + 1000 * 10) now
          (cache_key path) (document d') (some e.etag) 300 seen.1 apart k1 in
      let eq : write_json (redis_ops client stringify) base stringify ids now path d w
          ≡ write_library (redis_ops client stringify) base stringify ids 2 1 now path d' w1 =
        ground (arith, lib, i, acquired, hit, tag, wrote, failing) in
      subst (λ (r : WriteResult × World (RedisCache R) S). Refused path (ids 0) (now + 10000) s r)
        (sym eq)
        (rounds-Refused 2 1 now path d' (ids 0) (now + 10000) w1 (omega (arith, two_waits)) k2)
