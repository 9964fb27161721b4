-- ===== src/RedisCache/Working.antt =====
-- A Redis cache whose client works has the laws of a cache.
use mirai_app.Prelude.{
  ℕ, ◌+◌, ◌≤◌, ◌≡◌, ◌⊎◌, refl, Bool, true, false, Option, none, some, List, [], ◌∷◌, arith, ltb,
  if◌then◌else◌,
}
use mirai_app.Prelude.Js.{Outcome, done, failed, same_text_refl}
use mirai_app.RedisCache.Client.{
  Text, CacheEntry, Value, entry, lock, RedisClient, has_key, IsRedis,
}
use mirai_app.RedisCache.{
  RedisCache, redis_ops, text_given, lock_name, delete, get, get_next_version, store, set_entry,
  set_checked, set, acquire_lock, release_lock, release_script, invalidate_pattern, generate_etag,
  day_in_ms,
}
use mirai_app.RedisCache.Laws.{IsBelow, content_of, IsCache}

-- A client whose writes and deletions succeed, and under which values only expire.
pub record IsWorking {R D : Type 0} (client : RedisClient R D) : Type 0 where
  pub sets :
      (now : ℕ) (key : Text) (ttl : ℕ) (v : Value D) (r : R)
      → (r' : R) × (client.set_ex now key ttl v r ≡ done r')
  pub dels : (ks : List Text) (r : R) → (n : ℕ) × (r' : R) × (client.del ks r ≡ done (n, r'))
  pub expires :
      (now t : ℕ) (key : Text) (r : R)
      → now ≤ t
      → (client.get t key r ≡ done none) ⊎ (client.get t key r ≡ client.get now key r)

module _ {R D : Type 0} (client : RedisClient R D) (stringify : D → Text) (laws : IsRedis client)
    (working : IsWorking client) where
  -- What an answer of the client shows at a time: the content of an entry that is not stale.
  abbrev shown : ℕ → Outcome (Option (Value D)) → Option D
  shown t (failed e) = none
  shown t (done none) = none
  shown t (done (some (lock id))) = none
  shown t (done (some (entry e))) = if ltb (e.timestamp + day_in_ms) t then none else some e.content

  abbrev pub view : ℕ → Text → RedisCache R → Option D
  view t k c = if c.connected then shown t (client.get t k c.redis) else none

  abbrev pub up : RedisCache R → Bool
  up c = c.connected

  get-view :
      (now : ℕ) (key : Text) (c : RedisCache R)
      → content_of (get client stringify now key c).0 ≡ view now key c
  unfolding get
  get-view now key c = ground arith

  view-later :
      (now t : ℕ) (k : Text) (c : RedisCache R) → now ≤ t → IsBelow (view t k c) (view now k c)
  view-later now t k c h = ground (arith, working.expires now t k c.redis h)

  delete-view :
      (t : ℕ) (key : Text) (c : RedisCache R)
      → up c ≡ true
      → view t key (delete client stringify key c).1 ≡ none
  unfolding delete has_key
  delete-view t key c u =
      let (n, r, e) = working.dels (key ∷ []) c.redis in
      ground (arith, u, e, laws.del-get t n (key ∷ []) key c.redis r e, same_text_refl key)

  delete-below :
      (t : ℕ) (k key : Text) (c : RedisCache R)
      → IsBelow (view t k (delete client stringify key c).1) (view t k c)
  unfolding delete has_key
  delete-below t k key c =
      let (n, r, e) = working.dels (key ∷ []) c.redis in
      ground (arith, e, laws.del-get t n (key ∷ []) k c.redis r e)

  get-below :
      (t now : ℕ) (k key : Text) (c : RedisCache R)
      → IsBelow (view t k (get client stringify now key c).1) (view t k c)
  unfolding get
  get-below t now k key c = ground (arith, delete-below t k key c)

  invalidate-below :
      (t now : ℕ) (k pattern : Text) (c : RedisCache R)
      → IsBelow (view t k (invalidate_pattern client stringify now pattern c)) (view t k c)
  unfolding invalidate_pattern
  invalidate-below t now k pattern c = go (client.keys now pattern c.redis) refl
    where
      go :
          (o : Outcome (List Text))
          → client.keys now pattern c.redis ≡ o
          → IsBelow (view t k (invalidate_pattern client stringify now pattern c)) (view t k c)
      go (failed e) e' = ground (arith, e')
      go (done ks) e' =
          let (n, r, e) = working.dels ks c.redis in
          ground (arith, e', e, laws.del-get t n ks k c.redis r e)

  acquire-below :
      (t now : ℕ) (k key : Text) (ttl : ℕ) (id : Text) (c : RedisCache R)
      → IsBelow (view t k (acquire_lock client stringify now key ttl id c).1) (view t k c)
  unfolding acquire_lock
  acquire-below t now k key ttl id c =
      go (client.set_nx now (lock_name key) ttl (lock id) c.redis) refl
    where
      go :
          (o : Outcome (Bool × R))
          → client.set_nx now (lock_name key) ttl (lock id) c.redis ≡ o
          → IsBelow (view t k (acquire_lock client stringify now key ttl id c).1) (view t k c)
      go (failed e) e' = ground (arith, e')
      go (done (false, r)) e' =
          ground (arith, e', laws.set_nx-refused now t ttl (lock_name key) k (lock id) c.redis r e')
      go (done (true, r)) e' =
          ground (arith, e', laws.set_nx-get now t ttl (lock_name key) k (lock id) c.redis r e')

  release-below :
      (t now : ℕ) (k key id : Text) (c : RedisCache R)
      → IsBelow (view t k (release_lock client stringify now key id c).1) (view t k c)
  unfolding release_lock release_script has_key
  release-below t now k key id c =
      let (n, r, e) = working.dels (lock_name key ∷ []) c.redis in
      ground (arith, e, laws.del-get t n (lock_name key ∷ []) k c.redis r e)

  store-view :
      (t now : ℕ) (key : Text) (d : D) (ttl version : ℕ) (c : RedisCache R)
      → IsBelow (view t key (store client stringify now key d ttl (version, c)).1) (some d)
  unfolding store
  store-view t now key d ttl version c =
      let v : CacheEntry D = record {
        content = d;
        etag = generate_etag (stringify d) now;
        timestamp = now;
        version = version;
      } in
      let (r, e) = working.sets now key ttl (entry v) c.redis in
      ground (arith, e, laws.set_ex-get now t ttl key key (entry v) c.redis r e, same_text_refl key)

  store-succeeds :
      (now : ℕ) (key : Text) (d : D) (ttl version : ℕ) (c : RedisCache R)
      → (store client stringify now key d ttl (version, c)).0.0 ≡ true
  unfolding store
  store-succeeds now key d ttl version c =
      let v : CacheEntry D = record {
        content = d;
        etag = generate_etag (stringify d) now;
        timestamp = now;
        version = version;
      } in
      let (r, e) = working.sets now key ttl (entry v) c.redis in ground (arith, e)

  set_entry-view :
      (t now : ℕ) (key : Text) (d : D) (ttl : ℕ) (c : RedisCache R)
      → IsBelow (view t key (set_entry client stringify now key d ttl c).1) (some d)
  unfolding set_entry
  set_entry-view t now key d ttl c =
      let (version, c') = get_next_version client stringify now key c in
      store-view t now key d ttl version c'

  set_entry-succeeds :
      (now : ℕ) (key : Text) (d : D) (ttl : ℕ) (c : RedisCache R)
      → (set_entry client stringify now key d ttl c).0.0 ≡ true
  unfolding set_entry
  set_entry-succeeds now key d ttl c =
      let (version, c') = get_next_version client stringify now key c in
      store-succeeds now key d ttl version c'

  set-view :
      (t now : ℕ) (key : Text) (d : D) (etag : Option Text) (ttl : ℕ) (c : RedisCache R)
      → (set client stringify now key d etag ttl c).0.0 ≡ true
      → IsBelow (view t key (set client stringify now key d etag ttl c).1) (some d)
  unfolding set set_checked
  set-view t now key d etag ttl c h =
      let seen = (get client stringify now key c).1 in
      ground (arith, set_entry-view t now key d ttl c, set_entry-view t now key d ttl seen)

  set-succeeds :
      (now : ℕ) (key : Text) (d : D) (etag : Option Text) (ttl : ℕ) (c : RedisCache R)
      → up c ≡ true
      → text_given etag ≡ false
      → (set client stringify now key d etag ttl c).0.0 ≡ true
  unfolding set
  set-succeeds now key d etag ttl c u h = ground (arith, set_entry-succeeds now key d ttl c)

  delete-up : (key : Text) (c : RedisCache R) → up (delete client stringify key c).1 ≡ up c
  unfolding delete
  delete-up key c = ground arith

  get-up : (now : ℕ) (key : Text) (c : RedisCache R) → up (get client stringify now key c).1 ≡ up c
  unfolding get
  get-up now key c = ground (arith, delete-up key c)

  set_entry-up :
      (now : ℕ) (key : Text) (d : D) (ttl : ℕ) (c : RedisCache R)
      → up (set_entry client stringify now key d ttl c).1 ≡ up c
  unfolding set_entry store get_next_version
  set_entry-up now key d ttl c = ground (arith, get-up now key c)

  set-up :
      (now : ℕ) (key : Text) (d : D) (etag : Option Text) (ttl : ℕ) (c : RedisCache R)
      → up (set client stringify now key d etag ttl c).1 ≡ up c
  unfolding set set_checked
  set-up now key d etag ttl c =
      let seen = (get client stringify now key c).1 in
      ground
        (arith, get-up now key c, set_entry-up now key d ttl c, set_entry-up now key d ttl seen)

  acquire-up :
      (now : ℕ) (key : Text) (ttl : ℕ) (id : Text) (c : RedisCache R)
      → up (acquire_lock client stringify now key ttl id c).1 ≡ up c
  unfolding acquire_lock
  acquire-up now key ttl id c = ground arith

  -- The laws, of every cache over a client that works.
  pub redis-IsCache : IsCache (redis_ops client stringify) up view
  redis-IsCache = record {
    get-up = get-up;
    set-up = set-up;
    delete-up = delete-up;
    acquire-up = acquire-up;
    get-view = get-view;
    view-later = view-later;
    get-below = get-below;
    delete-below = delete-below;
    delete-view = delete-view;
    invalidate-below = invalidate-below;
    acquire-below = acquire-below;
    release-below = release-below;
    set-view = set-view;
    set-succeeds = set-succeeds;
  }
