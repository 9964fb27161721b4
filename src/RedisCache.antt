-- ===== src/RedisCache.antt =====
-- lib/cache/redisCache.ts: the cache over a Redis client, the one that does nothing, and the keys. The
-- client is a parameter: its state, and for each command the answer or the error with the state
-- after it. A value is what JSON.parse gives back for it: an entry, or the id of a lock. Times are in
-- milliseconds, times to live in seconds; no command throws out of this file.
pub mod Client
pub mod Laws
pub mod Lock
pub mod Working
pub mod Exclusion
use mirai_app.Prelude.{
  ℕ, zero, suc, ◌+◌, ◌-◌, ◌*◌, ◌/◌, ◌%◌, ◌^◌, String, Bool, true, false, not, Option, none, some,
  List, [], ◌∷◌, ◌++◌, ltb, if◌then◌else◌,
}
use mirai_app.Prelude.Js.{Outcome, done, failed, units, same_text, is_nonempty}
use mirai_app.RedisCache.Client.{Text, CacheEntry, Value, entry, lock, RedisClient}

-- What the storage adapter calls. The two cases of `RedisCache` and `NoOpCache` are instances.
pub record CacheOps (C D : Type 0) : Type 0 where
  pub connect : C → C
  pub get : ℕ → Text → C → Option (CacheEntry D) × C
  pub set : ℕ → Text → D → Option Text → ℕ → C → (Bool × Text) × C
  pub delete : Text → C → Bool × C
  pub invalidate_pattern : ℕ → Text → C → C
  pub acquire_lock : ℕ → Text → ℕ → Text → C → (Bool × Text) × C
  pub release_lock : ℕ → Text → Text → C → Bool × C

-- `if (text)` for a text that may be undefined.
abbrev pub text_given : Option Text → Bool
text_given none = false
text_given (some t) = is_nonempty t

-- The loop of `generateEtag` modulo 2 ^ 32, and `Math.abs` of the signed number that it stands for.
unfoldable pub hash_from : ℕ → Text → ℕ
hash_from h [] = h
hash_from h (c ∷ cs) = hash_from ((31 * h + c) % 2 ^ 32) cs

abbrev pub abs_int32 : ℕ → ℕ
abs_int32 h = if ltb h (2 ^ 31) then h else 2 ^ 32 - h

-- `toString(36)`, with fuel for the digits.
abbrev digit36 : ℕ → ℕ
digit36 d = if ltb d 10 then 48 + d else 87 + d

unfoldable pub base36_digits : ℕ → ℕ → Text → Text
base36_digits zero n acc = acc
base36_digits (suc f) n acc =
    let d = digit36 (n % 36) ∷ acc in
    let rest = base36_digits f (n / 36) d in if ltb n 36 then d else rest

unfoldable pub base36 : ℕ → Text
unfolding base36_digits
base36 n = base36_digits (suc n) n []

-- `generateEtag` of a text that JSON.stringify gave.
unfoldable pub generate_etag : Text → ℕ → Text
unfolding hash_from base36 units
generate_etag text now =
    units "W/\"" ++ (base36 (abs_int32 (hash_from 0 text)) ++ (45 ∷ (base36 now ++ units "\"")))

-- A day, after which an entry is stale; `defaultTTL`.
abbrev pub day_in_ms : ℕ
day_in_ms = 86400000

abbrev pub default_ttl : ℕ
default_ttl = 300

-- The `RedisCache`: its client is there exactly while it is connected.
pub record RedisCache (R : Type 0) : Type 0 where
  pub connected : Bool
  pub redis : R

abbrev pub lock_name : Text → Text
lock_name key = units "lock:" ++ key

module _ {R D : Type 0} (client : RedisClient R D) (stringify : D → Text) where
  -- `connect`.
  unfoldable pub connect : RedisCache R → RedisCache R
  connect c = if c.connected then c else elim (client.connect c.redis) [
    | done r ↦ record { connected = true; redis = r }
    | failed e ↦ record { connected = false; redis = c.redis }
  ]

  unfoldable pub delete : Text → RedisCache R → Bool × RedisCache R
  delete key c = if not c.connected then (false, c) else elim (client.del (key ∷ []) c.redis) [
    | done (n, r) ↦ (ltb 0 n, record c { redis = r })
    | failed e ↦ (false, c)
  ]

  -- `get`: an error, a value that is no entry and a stale one are misses.
  unfoldable pub get_value :
      ℕ → Text → RedisCache R → Outcome (Option (Value D)) → Option (CacheEntry D) × RedisCache R
  unfolding delete
  get_value now key c (failed e) = (none, c)
  get_value now key c (done none) = (none, c)
  get_value now key c (done (some (lock id))) = (none, c)
  get_value now key c (done (some (entry e))) =
      if ltb (e.timestamp + day_in_ms) now then (none, (delete key c).1) else (some e, c)

  unfoldable pub get : ℕ → Text → RedisCache R → Option (CacheEntry D) × RedisCache R
  unfolding get_value
  get now key c =
      if not c.connected then (none, c) else get_value now key c (client.get now key c.redis)

  -- `getNextVersion`.
  unfoldable pub get_next_version : ℕ → Text → RedisCache R → ℕ × RedisCache R
  unfolding get
  get_next_version now key c =
      let (current, c') = get now key c in (elim current [ none ↦ 1 | some e ↦ e.version + 1 ], c')

  -- The part of `set` behind the comparison of the etags: the entry, once its version is known.
  unfoldable pub store : ℕ → Text → D → ℕ → ℕ × RedisCache R → (Bool × Text) × RedisCache R
  store now key d ttl (version, c) =
      let etag = generate_etag (stringify d) now in
      let e : CacheEntry D = record {
        content = d;
        etag = etag;
        timestamp = now;
        version = version;
      } in
      elim (client.set_ex now key ttl (entry e) c.redis) [
        | done r ↦ ((true, etag), record c { redis = r })
        | failed x ↦ ((false, []), c)
      ]

  unfoldable pub set_entry : ℕ → Text → D → ℕ → RedisCache R → (Bool × Text) × RedisCache R
  unfolding store get_next_version
  set_entry now key d ttl c = store now key d ttl (get_next_version now key c)

  -- The comparison: another etag than the expected one is a concurrent modification.
  unfoldable pub set_checked :
      ℕ → Text → D → Text → ℕ → Option (CacheEntry D) × RedisCache R → (Bool × Text) × RedisCache R
  unfolding set_entry
  set_checked now key d etag ttl (none, c) = set_entry now key d ttl c
  set_checked now key d etag ttl (some e, c) =
      if same_text e.etag etag then set_entry now key d ttl c else ((false, e.etag), c)

  unfoldable pub set : ℕ → Text → D → Option Text → ℕ → RedisCache R → (Bool × Text) × RedisCache R
  unfolding set_entry set_checked get
  set now key d etag ttl c = if not c.connected then ((false, []), c) else elim etag [
    | none ↦ set_entry now key d ttl c
    | some t ↦
        if is_nonempty t
        then set_checked now key d t ttl (get now key c)
        else set_entry now key d ttl c
  ]

  -- `invalidatePattern`.
  unfoldable pub invalidate_pattern : ℕ → Text → RedisCache R → RedisCache R
  invalidate_pattern now pattern c =
      if not c.connected then c else elim (client.keys now pattern c.redis) [
        | failed e ↦ c
        | done keys ↦
            if is_nonempty keys
            then elim (client.del keys c.redis) [
              | done (n, r) ↦ record c { redis = r }
              | failed e ↦ c
            ]
            else c
      ]

  -- `acquireLock` with the id that it has made.
  unfoldable pub acquire_lock : ℕ → Text → ℕ → Text → RedisCache R → (Bool × Text) × RedisCache R
  unfolding units
  acquire_lock now key ttl id c =
      if not c.connected
      then ((false, []), c)
      else elim (client.set_nx now (lock_name key) ttl (lock id) c.redis) [
        | done (ok, r) ↦ ((ok, id), record c { redis = r })
        | failed e ↦ ((false, []), c)
      ]

  -- The script of `releaseLock`: only one's own lock is deleted.
  unfoldable pub release_script :
      ℕ → Text → Text → RedisCache R → Outcome (Option (Value D)) → Bool × RedisCache R
  release_script now name id c (failed e) = (false, c)
  release_script now name id c (done none) = (false, c)
  release_script now name id c (done (some (entry e))) = (false, c)
  release_script now name id c (done (some (lock held))) =
      if same_text held id
      then elim (client.del (name ∷ []) c.redis) [
        | done (n, r) ↦ (ltb 0 n, record c { redis = r })
        | failed e ↦ (false, c)
      ]
      else (false, c)

  unfoldable pub release_lock : ℕ → Text → Text → RedisCache R → Bool × RedisCache R
  unfolding release_script units
  release_lock now key id c =
      if not c.connected
      then (false, c)
      else release_script now (lock_name key) id c (client.get now (lock_name key) c.redis)

  -- `disconnect`; an error of the client goes to the caller.
  unfoldable pub disconnect : RedisCache R → Outcome (RedisCache R)
  disconnect c = if not c.connected then done c else elim (client.quit c.redis) [
    | done r ↦ done (record { connected = false; redis = r })
    | failed e ↦ failed e
  ]

  abbrev pub redis_ops : CacheOps (RedisCache R) D
  redis_ops = record {
    connect = connect;
    get = get;
    set = set;
    delete = delete;
    invalidate_pattern = invalidate_pattern;
    acquire_lock = acquire_lock;
    release_lock = release_lock;
  }

-- `NoOpCache`: nothing is kept, and all succeeds.
abbrev pub no_op_ops : {C D : Type 0} → CacheOps C D
no_op_ops = record {
  connect = λ c. c;
  get = λ now key c. (none, c);
  set = λ now key d etag ttl c. ((true, []), c);
  delete = λ key c. (true, c);
  invalidate_pattern = λ now pattern c. c;
  acquire_lock = λ now key ttl id c. ((true, units "no-op"), c);
  release_lock = λ now key id c. (true, c);
}
