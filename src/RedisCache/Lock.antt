-- ===== src/RedisCache/Lock.antt =====
-- A held lock stays held under what others do with the cache, until it expires.
use mirai_app.Prelude.{
  ℕ, ◌<◌, ◌≡◌, refl, Bool, true, false, Option, some, List, [], ◌∷◌, arith, inl, inr, Bool-cases,
}
use mirai_app.Prelude.Js.{Outcome, done, failed, same_text, same_text-eq}
use mirai_app.RedisCache.Client.{
  Text, CacheEntry, Value, entry, lock, RedisClient, has_key, IsRedis,
}
use mirai_app.RedisCache.{
  invalidate_pattern, connect, disconnect, RedisCache, lock_name, delete, get, get_next_version,
  store, set_entry, set_checked, set, acquire_lock, release_lock, release_script, generate_etag,
}

-- The cache after an attempt to disconnect.
abbrev pub after_disconnect : {R : Type 0} → Outcome (RedisCache R) → RedisCache R → RedisCache R
after_disconnect (done c') c = c'
after_disconnect (failed e) c = c

module _ {R D : Type 0} (client : RedisClient R D) (stringify : D → Text) (laws : IsRedis client)
    (name id : Text) (deadline : ℕ) where
  -- The lock `name` is held under `id` until the deadline.
  abbrev pub IsKept : R → Type 0
  IsKept r = (t : ℕ) → t < deadline → client.get t name r ≡ done (some (lock id))

  abbrev after_del : Outcome (ℕ × R) → R → R
  after_del (done (n, r')) r = r'
  after_del (failed e) r = r

  abbrev after_set : Outcome R → R → R
  after_set (done r') r = r'
  after_set (failed e) r = r

  abbrev after_nx : Outcome (Bool × R) → R → R
  after_nx (done (ok, r')) r = r'
  after_nx (failed e) r = r

  del-IsKept :
      (key : Text) (r : R)
      → same_text key name ≡ false
      → IsKept r
      → IsKept (after_del (client.del (key ∷ []) r) r)
  unfolding has_key
  del-IsKept key r other kept t h = go (client.del (key ∷ []) r) refl
    where
      go :
          (o : Outcome (ℕ × R))
          → client.del (key ∷ []) r ≡ o
          → client.get t name (after_del o r) ≡ done (some (lock id))
      go (failed e) e' = kept t h
      go (done (n, r')) e' = ground (arith, laws.del-get t n (key ∷ []) name r r' e', kept t h)

  -- A deletion of keys among which the lock is not.
  del_keys-IsKept :
      (ks : List Text) (r : R)
      → has_key name ks ≡ false
      → IsKept r
      → IsKept (after_del (client.del ks r) r)
  del_keys-IsKept ks r other kept t h = go (client.del ks r) refl
    where
      go :
          (o : Outcome (ℕ × R))
          → client.del ks r ≡ o
          → client.get t name (after_del o r) ≡ done (some (lock id))
      go (failed e) e' = kept t h
      go (done (n, r')) e' = ground (arith, laws.del-get t n ks name r r' e', other, kept t h)

  pub invalidate-IsKept :
      (now : ℕ) (pattern : Text) (c : RedisCache R)
      → client.glob pattern name ≡ false
      → IsKept c.redis
      → IsKept (invalidate_pattern client stringify now pattern c).redis
  unfolding invalidate_pattern
  invalidate-IsKept now pattern c other kept t h = go (client.keys now pattern c.redis) refl
    where
      go :
          (o : Outcome (List Text))
          → client.keys now pattern c.redis ≡ o
          → client.get t name (invalidate_pattern client stringify now pattern c).redis
            ≡ done (some (lock id))
      go (failed e) e' = ground (arith, e', kept t h)
      go (done ks) e' = ground (
        arith,
        e',
        kept t h,
        del_keys-IsKept ks c.redis (laws.keys-glob now pattern name c.redis ks e' other) kept t h,
      )

  pub connect-IsKept :
      (c : RedisCache R) → IsKept c.redis → IsKept (connect client stringify c).redis
  unfolding connect
  connect-IsKept c kept t h = go (client.connect c.redis) refl
    where
      go :
          (o : Outcome R)
          → client.connect c.redis ≡ o
          → client.get t name (connect client stringify c).redis ≡ done (some (lock id))
      go (failed e) e' = ground (arith, e', kept t h)
      go (done r) e' = ground (arith, e', kept t h, laws.connect-get t name c.redis r e')

  pub disconnect-IsKept :
      (c : RedisCache R)
      → IsKept c.redis
      → IsKept (after_disconnect (disconnect client stringify c) c).redis
  unfolding disconnect
  disconnect-IsKept c kept t h = go (client.quit c.redis) refl
    where
      go :
          (o : Outcome R)
          → client.quit c.redis ≡ o
          → client.get t name (after_disconnect (disconnect client stringify c) c).redis
            ≡ done (some (lock id))
      go (failed e) e' = ground (arith, e', kept t h)
      go (done r) e' = ground (arith, e', kept t h, laws.quit-get t name c.redis r e')

  set_ex-IsKept :
      (now ttl : ℕ) (key : Text) (v : Value D) (r : R)
      → same_text key name ≡ false
      → IsKept r
      → IsKept (after_set (client.set_ex now key ttl v r) r)
  set_ex-IsKept now ttl key v r other kept t h = go (client.set_ex now key ttl v r) refl
    where
      go :
          (o : Outcome R)
          → client.set_ex now key ttl v r ≡ o
          → client.get t name (after_set o r) ≡ done (some (lock id))
      go (failed e) e' = kept t h
      go (done r') e' = ground (arith, laws.set_ex-get now t ttl key name v r r' e', kept t h)

  -- Another attempt at the lock is refused, and one at another lock changes nothing here.
  set_nx-IsKept :
      (now ttl : ℕ) (key : Text) (v : Value D) (r : R)
      → now < deadline
      → IsKept r
      → IsKept (after_nx (client.set_nx now key ttl v r) r)
  set_nx-IsKept now ttl key v r early kept t h = go (client.set_nx now key ttl v r) refl
    where
      go :
          (o : Outcome (Bool × R))
          → client.set_nx now key ttl v r ≡ o
          → client.get t name (after_nx o r) ≡ done (some (lock id))
      go (failed e) e' = kept t h
      go (done (false, r')) e' =
          ground (arith, laws.set_nx-refused now t ttl key name v r r' e', kept t h)
      go (done (true, r')) e' = elim (Bool-cases (same_text key name)) [
        | inl same ↦
            let free = laws.set_nx-free now ttl key v r r' e' in
            let k : key ≡ name = same_text-eq key name same in
            ground (arith, free, k, kept now early)
        | inr other ↦ ground (arith, laws.set_nx-get now t ttl key name v r r' e', other, kept t h)
      ]

  pub delete-IsKept :
      (key : Text) (c : RedisCache R)
      → same_text key name ≡ false
      → IsKept c.redis
      → IsKept (delete client stringify key c).1.redis
  unfolding delete
  delete-IsKept key c other kept t h =
      ground (arith, del-IsKept key c.redis other kept t h, kept t h)

  pub get-IsKept :
      (now : ℕ) (key : Text) (c : RedisCache R)
      → same_text key name ≡ false
      → IsKept c.redis
      → IsKept (get client stringify now key c).1.redis
  unfolding get
  get-IsKept now key c other kept t h = ground (arith, delete-IsKept key c other kept t h, kept t h)

  get_next_version-IsKept :
      (now : ℕ) (key : Text) (c : RedisCache R)
      → same_text key name ≡ false
      → IsKept c.redis
      → IsKept (get_next_version client stringify now key c).1.redis
  unfolding get_next_version
  get_next_version-IsKept now key c other kept = get-IsKept now key c other kept

  store-IsKept :
      (now : ℕ) (key : Text) (d : D) (ttl version : ℕ) (c : RedisCache R)
      → same_text key name ≡ false
      → IsKept c.redis
      → IsKept (store client stringify now key d ttl (version, c)).1.redis
  unfolding store
  store-IsKept now key d ttl version c other kept t h =
      let e : CacheEntry D = record {
        content = d;
        etag = generate_etag (stringify d) now;
        timestamp = now;
        version = version;
      } in
      ground (arith, set_ex-IsKept now ttl key (entry e) c.redis other kept t h, kept t h)

  set_entry-IsKept :
      (now : ℕ) (key : Text) (d : D) (ttl : ℕ) (c : RedisCache R)
      → same_text key name ≡ false
      → IsKept c.redis
      → IsKept (set_entry client stringify now key d ttl c).1.redis
  unfolding set_entry
  set_entry-IsKept now key d ttl c other kept =
      let (version, c') = get_next_version client stringify now key c in
      store-IsKept now key d ttl version c' other (get_next_version-IsKept now key c other kept)

  pub set-IsKept :
      (now : ℕ) (key : Text) (d : D) (etag : Option Text) (ttl : ℕ) (c : RedisCache R)
      → same_text key name ≡ false
      → IsKept c.redis
      → IsKept (set client stringify now key d etag ttl c).1.redis
  unfolding set set_checked
  set-IsKept now key d etag ttl c other kept t h =
      let seen = (get client stringify now key c).1 in
      ground (
        arith,
        set_entry-IsKept now key d ttl c other kept t h,
        set_entry-IsKept now key d ttl seen other (get-IsKept now key c other kept) t h,
        get-IsKept now key c other kept t h,
        kept t h,
      )

  pub acquire-IsKept :
      (now : ℕ) (key : Text) (ttl : ℕ) (mine : Text) (c : RedisCache R)
      → now < deadline
      → IsKept c.redis
      → IsKept (acquire_lock client stringify now key ttl mine c).1.redis
  unfolding acquire_lock
  acquire-IsKept now key ttl mine c early kept t h =
      ground
        (arith, set_nx-IsKept now ttl (lock_name key) (lock mine) c.redis early kept t h, kept t h)

  -- A release under another id deletes nothing.
  pub release-IsKept :
      (now : ℕ) (key other : Text) (c : RedisCache R)
      → now < deadline
      → same_text id other ≡ false
      → IsKept c.redis
      → IsKept (release_lock client stringify now key other c).1.redis
  unfolding release_lock release_script
  release-IsKept now key other c early foreign kept t h =
      elim (Bool-cases (same_text (lock_name key) name)) [
        | inl same ↦
            let k : lock_name key ≡ name = same_text-eq (lock_name key) name same in
            ground (arith, k, kept now early, kept t h)
        | inr apart ↦ ground (arith, del-IsKept (lock_name key) c.redis apart kept t h, kept t h)
      ]
