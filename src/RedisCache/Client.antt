-- ===== src/RedisCache/Client.antt =====
-- The commands of a Redis client that lib/cache/redisCache.ts sends, and what it relies on.
use mirai_app.Prelude.{
  ℕ, ◌+◌, ◌*◌, ◌≡◌, Bool, true, false, ◌||◌, Option, none, some, List, [], ◌∷◌, ltb, if◌then◌else◌,
}
use mirai_app.Prelude.Js.{Outcome, done, failed, same_text}

-- Texts as code units.
abbrev pub Text : Type 0
Text = List ℕ

-- `CacheEntry`.
pub record CacheEntry (D : Type 0) : Type 0 where
  pub content : D
  pub etag : Text
  pub timestamp : ℕ
  pub version : ℕ

pub data Value (D : Type 0) : Type 0 where
  entry : CacheEntry D → Value D
  lock : Text → Value D

-- The commands, and `glob`: whether a pattern of KEYS matches a key.
pub record RedisClient (R D : Type 0) : Type 0 where
  pub connect : R → Outcome R
  pub get : ℕ → Text → R → Outcome (Option (Value D))
  pub set_ex : ℕ → Text → ℕ → Value D → R → Outcome R
  pub set_nx : ℕ → Text → ℕ → Value D → R → Outcome (Bool × R)
  pub del : List Text → R → Outcome (ℕ × R)
  pub quit : R → Outcome R
  pub keys : ℕ → Text → R → Outcome (List Text)
  pub glob : Text → Text → Bool

-- Whether a value written at `now` is still there at `later`.
abbrev pub is_live : ℕ → ℕ → ℕ → Bool
is_live now ttl later = ltb later (now + 1000 * ttl)

-- Whether a key is one of a list.
unfoldable pub has_key : Text → List Text → Bool
has_key key [] = false
has_key key (k ∷ ks) = same_text k key || has_key key ks

abbrev pub is_held : {D : Type 0} → Outcome (Option (Value D)) → Bool
is_held (failed e) = false
is_held (done none) = false
is_held (done (some v)) = true

-- What Redis documents of its commands, for a client whose reads succeed: SETEX stores a value for
-- its time to live; SET with NX and EX does so where there is none, and else changes nothing; DEL
-- removes keys. All other keys keep their values, as all do when a client connects or quits. KEYS
-- finds keys that its pattern matches.
pub record IsRedis {R D : Type 0} (client : RedisClient R D) : Type 0 where
  pub set_ex-get :
      (now later ttl : ℕ) (key other : Text) (v : Value D) (r r' : R)
      → client.set_ex now key ttl v r ≡ done r'
      → client.get later other r' ≡ (
          if same_text key other
          then (if is_live now ttl later then done (some v) else done none)
          else client.get later other r)
  pub set_nx-get :
      (now later ttl : ℕ) (key other : Text) (v : Value D) (r r' : R)
      → client.set_nx now key ttl v r ≡ done (true, r')
      → client.get later other r' ≡ (
          if same_text key other
          then (if is_live now ttl later then done (some v) else done none)
          else client.get later other r)
  pub set_nx-free :
      (now ttl : ℕ) (key : Text) (v : Value D) (r r' : R)
      → client.set_nx now key ttl v r ≡ done (true, r')
      → is_held (client.get now key r) ≡ false
  pub set_nx-refused :
      (now later ttl : ℕ) (key other : Text) (v : Value D) (r r' : R)
      → client.set_nx now key ttl v r ≡ done (false, r')
      → client.get later other r' ≡ client.get later other r
  pub del-get :
      (later n : ℕ) (ks : List Text) (other : Text) (r r' : R)
      → client.del ks r ≡ done (n, r')
      → client.get later other r'
        ≡ (if has_key other ks then done none else client.get later other r)
  pub connect-get :
      (later : ℕ) (other : Text) (r r' : R)
      → client.connect r ≡ done r'
      → client.get later other r' ≡ client.get later other r
  pub quit-get :
      (later : ℕ) (other : Text) (r r' : R)
      → client.quit r ≡ done r'
      → client.get later other r' ≡ client.get later other r
  pub keys-glob :
      (now : ℕ) (pattern key : Text) (r : R) (ks : List Text)
      → client.keys now pattern r ≡ done ks
      → client.glob pattern key ≡ false
      → has_key key ks ≡ false
