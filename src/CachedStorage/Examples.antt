-- ===== src/CachedStorage/Examples.antt =====
-- A library and a course behind a cache, in storage that is a list of files.
use mirai_app.Prelude.{
  ℕ, ◌+◌, ◌≡◌, refl, Bool, true, false, none, some, List, [], ◌∷◌, arith, if◌then◌else◌,
}
use mirai_app.Prelude.Js.{Outcome, done, failed, Thrown, units, includes, same_text, same_text_refl}
use mirai_app.RedisCache.Client.{Text, CacheEntry, entry}
use mirai_app.RedisCache.{RedisCache, redis_ops, get, set, acquire_lock}
use mirai_app.RedisCache.Working.{up, view, redis-IsCache}
use mirai_app.RedisCache.Exclusion.{Action, acquire, invalidate, write, perform_all, lock_excludes}
use mirai_app.CachedStorage.Keys.{
  is_library, cache_key, course_match, name_before_json, after_prefix,
}
use mirai_app.CachedStorage.Toy.{glob_end, Cell, find, toy, toy-IsRedis, toy-IsWorking}
use mirai_app.CachedStorage.{
  Document, Payload, document, BaseAdapter, World, lock_key, ensure_initialized, tagged, write_json,
  read_json,
}
use mirai_app.CachedStorage.Coherence.{read-write}
use mirai_app.CachedStorage.Leak.{Refused, failed_update_keeps_lock}

abbrev Files : Type 0
Files = List (Text × Document ℕ)

read_file : Text → Files → Outcome (Document ℕ)
read_file path [] = failed (Thrown.plain "ENOENT")
read_file path ((p, d) ∷ files) =
    let rest = read_file path files in if same_text p path then done d else rest

abbrev files : BaseAdapter Files ℕ
files = record {
  read_json = read_file;
  write_json = λ path d s. (done tt, (path, d) ∷ s);
  list_files = λ directory s. done [];
  ensure_directory = λ directory s. (done tt, s);
  delete_file = none;
  exists = none;
}

files-store :
    (path : Text) (d : Document ℕ) (s s' : Files)
    → files.write_json path d s ≡ (done tt, s')
    → files.read_json path s' ≡ done d
unfolding read_file
files-store path d s s' e = ground (arith, e, same_text_refl path)

abbrev stringify : Payload ℕ → Text
stringify p = units "{}"

abbrev ids : ℕ → Text
ids n = (n + 48) ∷ []

abbrev library_path : Text
library_path = units "library.json"

abbrev course_path : Text
course_path = units "courses/course-7.json"

abbrev library : Document ℕ
library = record { version = some (units "1.0"); etag = none; body = 7 }

abbrev world : Bool → World (RedisCache (List (Cell (Payload ℕ)))) Files
world connected = record {
  cache = record { connected = connected; redis = [] };
  base = [];
  initialized = true;
}

course_cached : cache_key course_path ≡ units "course:7"
unfolding cache_key is_library includes course_match after_prefix name_before_json units
course_cached = refl

read-write_example :
    (d' : Document ℕ) × ((read_json
        (redis_ops (toy false) stringify)
        files
        stringify
        ids
        705
        course_path
        (write_json
          (redis_ops (toy false) stringify)
          files
          stringify
          ids
          5
          course_path
          library
          (world true)).1).0
      ≡ done (document d'))
    × (d'.body ≡ 7)
    × (is_library course_path ≡ false → d' ≡ library)
unfolding write_json is_library includes units ensure_initialized
read-write_example =
    read-write (redis_ops (toy false) stringify) files stringify ids
      (up (toy false) stringify (toy-IsRedis false) toy-IsWorking)
      (view (toy false) stringify (toy-IsRedis false) toy-IsWorking)
      (redis-IsCache (toy false) stringify (toy-IsRedis false) toy-IsWorking) files-store 5 705
      course_path library (world true) refl refl (omega arith)

abbrev others : List (Action (Payload ℕ))
others =
    acquire 3 lock_key 10 (units "b")
    ∷ invalidate 3 (units "courses:*")
    ∷ write 4 (units "k") (document library) none 300
    ∷ []

lock_excludes_example :
    (acquire_lock (toy false) stringify 9000 lock_key 10 (units "c") (
      perform_all
        (toy false)
        stringify
        others
        (acquire_lock (toy false) stringify 2 lock_key 10 (units "a") (world true).cache).1)).0.0
    ≡ false
unfolding acquire_lock find same_text units glob_end
lock_excludes_example =
    lock_excludes (toy false) stringify (toy-IsRedis false) 2 lock_key 10 (units "a")
      (world true).cache others 9000 10 (units "c") refl (omega arith, (refl, (refl, tt)))
      (omega arith)

-- A library in the cache, before its SETEX breaks.
abbrev cached : CacheEntry (Payload ℕ)
cached = record { content = document library; etag = units "e"; timestamp = 1; version = 1 }

abbrev broken_world : World (RedisCache (List (Cell (Payload ℕ)))) Files
broken_world = record {
  cache = record {
    connected = true;
    redis = record { key = units "library:index"; value = entry cached; until = 300000 } ∷ [];
  };
  base = [];
  initialized = true;
}

abbrev stored : Document ℕ
stored = tagged (redis_ops (toy true) stringify) files stringify ids 5 library

failed_update_keeps_lock_example :
    Refused
      (toy true)
      files
      stringify
      ids
      (toy-IsRedis true)
      library_path
      (ids 0)
      10005
      ((library_path, stored) ∷ [])
      (write_json
        (redis_ops (toy true) stringify)
        files
        stringify
        ids
        5
        library_path
        library
        broken_world)
unfolding acquire_lock get set find is_library cache_key includes same_text units
failed_update_keeps_lock_example =
    failed_update_keeps_lock (toy true) files stringify ids (toy-IsRedis true) 5 library_path
      library broken_world ((library_path, stored) ∷ []) cached refl refl refl refl refl refl refl
