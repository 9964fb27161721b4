-- ===== src/CachedStorage.antt =====
-- lib/storage/cachedStorageAdapter.ts: the storage behind a cache, with a lock for the library index.
-- The wrapped adapter and the cache are parameters; so are JSON.stringify and the random part of the
-- ids of locks. An operation takes the time at which it begins; between its calls only the waits of
-- the retries take time, and no other client acts.
pub mod Keys
pub mod Offline
pub mod Coherence
pub mod Leak
pub mod Toy
mod Examples
use mirai_app.Prelude.{
  ℕ, zero, suc, ◌+◌, ◌*◌, ◌^◌, String, Bool, true, false, not, ◌&&◌, ◌||◌, Option, none, some, List,
  [], ◌∷◌, ◌++◌, if◌then◌else◌,
}
use mirai_app.Prelude.Js.{Outcome, done, failed, Thrown, units, includes, is_nonempty}
use mirai_app.RedisCache.Client.{Text, CacheEntry}
use mirai_app.RedisCache.{CacheOps, text_given, generate_etag, default_ttl}
use mirai_app.CachedStorage.Keys.{
  cache_key, is_library, library_key, folders_key, folder_counts_key, exists_key,
}

-- What a file holds: of its fields only two are looked at.
pub record Document (B : Type 0) : Type 0 where
  pub version : Option Text
  pub etag : Option Text
  pub body : B

-- What the cache holds: documents, and the answers of `exists`.
pub data Payload (B : Type 0) : Type 0 where
  document : Document B → Payload B
  flag : Bool → Payload B

-- `IStorageAdapter`, with its two optional methods.
pub record BaseAdapter (S B : Type 0) : Type 0 where
  pub read_json : Text → S → Outcome (Document B)
  pub write_json : Text → Document B → S → Outcome (Unit {0}) × S
  pub list_files : Text → S → Outcome (List Text)
  pub ensure_directory : Text → S → Outcome (Unit {0}) × S
  pub delete_file : Option (Text → S → Outcome (Unit {0}) × S)
  pub exists : Option (Text → S → Outcome Bool)

pub record World (C S : Type 0) : Type 0 where
  pub cache : C
  pub base : S
  pub initialized : Bool

-- How writeJSON ends: the error of the lock names the path.
pub data WriteResult : Type 0 where
  written : WriteResult
  lock_failed : Text → WriteResult
  thrown : Thrown → WriteResult

abbrev pub max_retries : ℕ
max_retries = 3

-- `current?.etag`.
abbrev pub etag_of : {D : Type 0} → Option (CacheEntry D) → Option Text
etag_of none = none
etag_of (some e) = some e.etag

abbrev pub lock_key : Text
lock_key = units "library-write"

module _ {C S B : Type 0} (ops : CacheOps C (Payload B)) (base : BaseAdapter S B)
    (stringify : Payload B → Text) (ids : ℕ → Text) where
  unfoldable pub ensure_initialized : World C S → World C S
  ensure_initialized w =
      if not w.initialized then record w { cache = ops.connect w.cache; initialized = true } else w

  -- `readJSON`.
  unfoldable pub read_miss :
      ℕ → Text → Option (CacheEntry (Payload B)) × C → World C S → Outcome (Payload B) × World C S
  read_miss now path (some e, c) w = (done e.content, record w { cache = c })
  read_miss now path (none, c) w = elim (base.read_json path w.base) [
    | failed x ↦ (failed x, record w { cache = c })
    | done d ↦ (
      done (document d),
      record w { cache = (ops.set now (cache_key path) (document d) none default_ttl c).1 },
    )
  ]

  unfoldable pub read_json : ℕ → Text → World C S → Outcome (Payload B) × World C S
  unfolding read_miss ensure_initialized
  read_json now path w =
      let w' = ensure_initialized w in read_miss now path (ops.get now (cache_key path) w'.cache) w'

  -- `invalidateRelatedCaches`.
  unfoldable pub invalidate_lists : ℕ → C → C
  unfolding units
  invalidate_lists now c =
      let c1 = (ops.delete folders_key c).1 in
      let c2 = (ops.delete folder_counts_key c1).1 in
      let c3 = ops.invalidate_pattern now (units "courses:*") c2 in
      ops.invalidate_pattern now (units "folder:*") c3

  unfoldable pub invalidate_related_caches : ℕ → Text → C → C
  unfolding invalidate_lists is_library includes units
  invalidate_related_caches now path c =
      if is_library path
      then invalidate_lists now c
      else if includes path (units "course-")
      then invalidate_lists now (ops.delete library_key c).1
      else c

  -- The fields that writeJSON adds to a library; they stay for the retries.
  unfoldable pub with_version : Document B → Document B
  unfolding units
  with_version d = if text_given d.version then d else record d { version = some (units "1.0.0") }

  unfoldable pub with_etag : ℕ → Document B → Document B
  with_etag now d =
      if text_given d.etag
      then d
      else record d { etag = some (generate_etag (stringify (document d)) now) }

  unfoldable pub tagged : ℕ → Document B → Document B
  unfolding with_version with_etag
  tagged now d = with_etag now (with_version d)

  -- What follows the write of a library under the lock: `again` is the next round.
  unfoldable pub settle_library :
      ℕ
      → Text
      → Document B
      → Text
      → Option Text
      → (Document B → World C S → WriteResult × World C S)
      → World C S
      → WriteResult × World C S
  settle_library now path d id etag again w =
      let ((success, new_etag), c) =
        ops.set now (cache_key path) (document d) etag default_ttl w.cache in
      if not success && text_given etag
      then again d (record w { cache = c })
      else let c1 = invalidate_related_caches now path c in
        (written, record w { cache = (ops.release_lock now lock_key id c1).1 })

  -- A round that has the lock.
  unfoldable pub write_locked :
      ℕ
      → Text
      → Document B
      → Text
      → (Document B → World C S → WriteResult × World C S)
      → World C S
      → WriteResult × World C S
  unfolding settle_library
  write_locked now path d id again w =
      let (current, c) = ops.get now (cache_key path) w.cache in
      let d' = tagged now d in
      let (result, s) = base.write_json path d' w.base in
      elim result [
        | failed e ↦
            (thrown e, record w { cache = (ops.release_lock now lock_key id c).1; base = s })
        | done u ↦
            settle_library now path d' id (etag_of current) again (record w { cache = c; base = s })
      ]

  -- The loop over the attempts, with those that are left: a refused lock is waited for, and a failed
  -- update of the cache leads to the next round at once.
  unfoldable pub write_library : ℕ → ℕ → ℕ → Text → Document B → World C S → WriteResult × World C S
  unfolding write_locked
  write_library zero retries now path d w = (lock_failed path, w)
  write_library (suc left) retries now path d w =
      let ((acquired, id), c) = ops.acquire_lock now lock_key 10 (ids retries) w.cache in
      elim acquired [
        | true ↦
            write_locked now path d id (λ d' w'. write_library left (retries + 1) now path d' w')
              (record w { cache = c })
        | false ↦
            write_library left (retries + 1) (now + 100 * 2 ^ retries) path d
              (record w { cache = c })
      ]

  -- The write of any other file.
  unfoldable pub write_file : ℕ → Text → Document B → World C S → WriteResult × World C S
  write_file now path d w =
      let (result, s) = base.write_json path d w.base in
      elim result [
        | failed e ↦ (thrown e, record w { base = s })
        | done u ↦
            let c = (ops.delete (cache_key path) w.cache).1 in
            (written, record w { cache = invalidate_related_caches now path c; base = s })
      ]

  -- `writeJSON`.
  unfoldable pub write_json : ℕ → Text → Document B → World C S → WriteResult × World C S
  unfolding write_library write_file ensure_initialized
  write_json now path d w =
      let w' = ensure_initialized w in
      if is_library path
      then write_library max_retries 0 now path d w'
      else write_file now path d w'

  -- `listFiles` and `ensureDirectory`, which are not cached.
  pub list_files : Text → World C S → Outcome (List Text) × World C S
  list_files directory w = (base.list_files directory w.base, w)

  pub ensure_directory : Text → World C S → Outcome (Unit {0}) × World C S
  ensure_directory directory w =
      let (result, s) = base.ensure_directory directory w.base in (result, record w { base = s })

  -- `deleteFile`.
  unfoldable pub delete_file : ℕ → Text → World C S → Outcome (Unit {0}) × World C S
  unfolding ensure_initialized
  delete_file now path w =
      let w' = ensure_initialized w in
      let (result, s) =
        (let deleted : Outcome (Unit {0}) × S = elim base.delete_file [
          | none ↦ (done tt, w'.base)
          | some f ↦ f path w'.base
        ] in
          deleted) in
      elim result [
        | failed e ↦ (failed e, record w' { base = s })
        | done u ↦
            let c = (ops.delete (cache_key path) w'.cache).1 in
            (done tt, record w' { cache = invalidate_related_caches now path c; base = s })
      ]

  -- `exists`.
  unfoldable pub exists : ℕ → Text → World C S → Outcome (Payload B) × World C S
  unfolding ensure_initialized
  exists now path w =
      let w' = ensure_initialized w in
      let (cached, c) = ops.get now (exists_key path) w'.cache in
      elim cached [
        | some e ↦ (done e.content, record w' { cache = c })
        | none ↦ elim base.exists [
          | none ↦ (done (flag true), record w' { cache = c })
          | some f ↦ elim (f path w'.base) [
            | failed e ↦ (failed e, record w' { cache = c })
            | done b ↦ (
              done (flag b),
              record w' { cache = (ops.set now (exists_key path) (flag b) none 60 c).1 },
            )
          ]
        ]
      ]
