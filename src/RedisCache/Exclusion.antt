-- ===== src/RedisCache/Exclusion.antt =====
-- The lock of acquireLock excludes: nobody else gets it before it is released or expires.
use mirai_app.Prelude.{
  ℕ, ◌+◌, ◌*◌, ◌<◌, ◌≡◌, refl, Bool, true, false, Option, some, List, [], ◌∷◌, arith, All,
}
use mirai_app.Prelude.Js.{Outcome, done, failed, same_text, same_text_refl}
use mirai_app.RedisCache.Client.{Text, lock, RedisClient, IsRedis}
use mirai_app.RedisCache.{
  connect, disconnect as disconnect_cache, invalidate_pattern, RedisCache, lock_name, delete, get,
  set, acquire_lock, release_lock,
}
use mirai_app.RedisCache.Lock.{
  IsKept, get-IsKept, delete-IsKept, set-IsKept, acquire-IsKept, release-IsKept, after_disconnect,
  invalidate-IsKept, connect-IsKept, disconnect-IsKept,
}

-- What others do with the cache: all its operations.
pub data Action (D : Type 0) : Type 0 where
  read : ℕ → Text → Action D
  write : ℕ → Text → D → Option Text → ℕ → Action D
  remove : Text → Action D
  acquire : ℕ → Text → ℕ → Text → Action D
  release : ℕ → Text → Text → Action D
  invalidate : ℕ → Text → Action D
  reconnect disconnect : Action D

-- Others do not use the lock's name as a key or match it by a pattern, and have other ids than the
-- holder; they try to acquire and release locks before the deadline.
abbrev pub IsForeign : {D : Type 0} → (Text → Text → Bool) → Text → Text → ℕ → Action D → Type 0
IsForeign glob name id deadline (read now key) = same_text key name ≡ false
IsForeign glob name id deadline (write now key d etag ttl) = same_text key name ≡ false
IsForeign glob name id deadline (remove key) = same_text key name ≡ false
IsForeign glob name id deadline (acquire now key ttl other) = now < deadline
IsForeign glob name id deadline (release now key other) =
    (now < deadline) × (same_text id other ≡ false)
IsForeign glob name id deadline (invalidate now pattern) = glob pattern name ≡ false
IsForeign glob name id deadline _ = Unit

module _ {R D : Type 0} (client : RedisClient R D) (stringify : D → Text) where
  pub perform : Action D → RedisCache R → RedisCache R
  perform (read now key) c = (get client stringify now key c).1
  perform (write now key d etag ttl) c = (set client stringify now key d etag ttl c).1
  perform (remove key) c = (delete client stringify key c).1
  perform (acquire now key ttl id) c = (acquire_lock client stringify now key ttl id c).1
  perform (release now key id) c = (release_lock client stringify now key id c).1
  perform (invalidate now pattern) c = invalidate_pattern client stringify now pattern c
  perform reconnect c = connect client stringify c
  perform disconnect c = after_disconnect (disconnect_cache client stringify c) c

  pub perform_all : List (Action D) → RedisCache R → RedisCache R
  unfolding perform
  perform_all [] c = c
  perform_all (a ∷ actions) c = perform_all actions (perform a c)

  module _ (laws : IsRedis client) where
    perform-IsKept :
        (name id : Text) (deadline : ℕ) (a : Action D) (c : RedisCache R)
        → IsForeign client.glob name id deadline a
        → IsKept client stringify laws name id deadline c.redis
        → IsKept client stringify laws name id deadline (perform a c).redis
    unfolding perform
    perform-IsKept name id deadline (read now key) c f k =
        get-IsKept client stringify laws name id deadline now key c f k
    perform-IsKept name id deadline (write now key d etag ttl) c f k =
        set-IsKept client stringify laws name id deadline now key d etag ttl c f k
    perform-IsKept name id deadline (remove key) c f k =
        delete-IsKept client stringify laws name id deadline key c f k
    perform-IsKept name id deadline (acquire now key ttl other) c f k =
        acquire-IsKept client stringify laws name id deadline now key ttl other c f k
    perform-IsKept name id deadline (release now key other) c f k =
        release-IsKept client stringify laws name id deadline now key other c f.0 f.1 k
    perform-IsKept name id deadline (invalidate now pattern) c f k =
        invalidate-IsKept client stringify laws name id deadline now pattern c f k
    perform-IsKept name id deadline reconnect c f k =
        connect-IsKept client stringify laws name id deadline c k
    perform-IsKept name id deadline disconnect c f k =
        disconnect-IsKept client stringify laws name id deadline c k

    perform_all-IsKept :
        (name id : Text) (deadline : ℕ) (actions : List (Action D)) (c : RedisCache R)
        → All (λ a. IsForeign client.glob name id deadline a) actions
        → IsKept client stringify laws name id deadline c.redis
        → IsKept client stringify laws name id deadline (perform_all actions c).redis
    unfolding perform_all
    perform_all-IsKept name id deadline [] c f k = k
    perform_all-IsKept name id deadline (a ∷ actions) c f k =
        perform_all-IsKept name id deadline actions (perform a c) f.1
          (perform-IsKept name id deadline a c f.0 k)

    -- Who has acquired a lock holds it until it expires.
    pub acquired-IsKept :
        (now : ℕ) (key : Text) (ttl : ℕ) (id : Text) (c : RedisCache R)
        → (acquire_lock client stringify now key ttl id c).0.0 ≡ true
        → IsKept client stringify laws
            (lock_name key)
            id
            (now + 1000 * ttl)
            (acquire_lock client stringify now key ttl id c).1.redis
    unfolding acquire_lock
    acquired-IsKept now key ttl id c h t early =
        go (client.set_nx now (lock_name key) ttl (lock id) c.redis) refl
      where
        go :
            (o : Outcome (Bool × R))
            → client.set_nx now (lock_name key) ttl (lock id) c.redis ≡ o
            → client.get t (lock_name key) (acquire_lock client stringify now key ttl id c).1.redis
              ≡ done (some (lock id))
        go (failed e) e' = ground (arith, e', h)
        go (done (false, r)) e' = ground (arith, e', h)
        go (done (true, r)) e' = ground (
          arith,
          e',
          h,
          laws.set_nx-get now t ttl (lock_name key) (lock_name key) (lock id) c.redis r e',
          same_text_refl (lock_name key),
        )

    pub refused :
        (key : Text) (id other : Text) (deadline t ttl : ℕ) (c : RedisCache R)
        → IsKept client stringify laws (lock_name key) id deadline c.redis
        → t < deadline
        → (acquire_lock client stringify t key ttl other c).0.0 ≡ false
    unfolding acquire_lock
    refused key id other deadline t ttl c k early =
        go (client.set_nx t (lock_name key) ttl (lock other) c.redis) refl
      where
        go :
            (o : Outcome (Bool × R))
            → client.set_nx t (lock_name key) ttl (lock other) c.redis ≡ o
            → (acquire_lock client stringify t key ttl other c).0.0 ≡ false
        go (failed e) e' = ground (arith, e')
        go (done (false, r)) e' = ground (arith, e')
        go (done (true, r)) e' =
            ground
              (arith, laws.set_nx-free t ttl (lock_name key) (lock other) c.redis r e', k t early)

    -- Over a client that does what Redis documents, once a lock is acquired, then whatever others do with
    -- the cache under other ids, other keys and patterns that do not match the lock's key, every
    -- attempt to acquire it before it expires is refused, if theirs at locks come before it expires
    -- too.
    pub lock_excludes :
        (now : ℕ) (key : Text) (ttl : ℕ) (id : Text) (c : RedisCache R) (actions : List (Action D))
        (t ttl' : ℕ) (other : Text)
        → (acquire_lock client stringify now key ttl id c).0.0 ≡ true
        → All (λ a. IsForeign client.glob (lock_name key) id (now + 1000 * ttl) a) actions
        → t < now + 1000 * ttl
        → (acquire_lock client stringify t key ttl' other
            (perform_all actions (acquire_lock client stringify now key ttl id c).1)).0.0
          ≡ false
    lock_excludes now key ttl id c actions t ttl' other h f early =
        let c' = (acquire_lock client stringify now key ttl id c).1 in
        refused key id other (now + 1000 * ttl) t ttl' (perform_all actions c')
          (perform_all-IsKept (lock_name key) id (now + 1000 * ttl) actions c' f
            (acquired-IsKept now key ttl id c h))
          early
