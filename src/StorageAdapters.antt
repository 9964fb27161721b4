-- ===== src/StorageAdapters.antt =====
-- lib/storage/storageAdapter.ts and lib/storage/s3Storage.ts: the adapters behind the course
-- storage. An adapter works on a store `S` and on JSON values `J`; what Node and the S3 client do
-- is a parameter.
pub mod Local
pub mod Bucket
pub mod Courses
mod Examples
use mirai_app.Prelude.{
  ℕ, String, Bool, true, false, not, Option, none, some, List, [], ◌∷◌, str_eq, if◌then◌else◌,
}
use mathlib.Core.List.{reverse}
use mirai_app.Prelude.Js.{Outcome, units, has_prefix}

-- `IStorageAdapter`; both classes have the optional methods too.
pub record Adapter (S J : Type 0) : Type 0 where
  pub read_json : String → S → Outcome J
  pub write_json : String → J → S → Outcome (Unit {0}) × S
  pub list_files : String → S → Outcome (List String)
  pub ensure_directory : String → S → Outcome (Unit {0}) × S
  pub delete_file : String → S → Outcome (Unit {0}) × S
  pub exists : String → S → Outcome Bool

-- `s.endsWith(p)`.
unfoldable pub ends_with : String → String → Bool
unfolding has_prefix units
ends_with s p = has_prefix (reverse (units s)) (reverse (units p))

unfoldable pub json_only : List String → List String
unfolding ends_with
json_only [] = []
json_only (f ∷ fs) = let rest = json_only fs in if ends_with f ".json" then f ∷ rest else rest

-- What getStorageAdapter builds, from USE_S3_STORAGE and ENABLE_REDIS_CACHE.
pub data Backend : Type 0 where
  s3 local : Backend

pub record Choice : Type 0 where
  pub backend : Backend
  pub cached : Bool

abbrev is_given : Option String → String → Bool
is_given none v = false
is_given (some s) v = str_eq s v

unfoldable pub get_storage_adapter : Option String → Option String → Choice
get_storage_adapter use_s3 enable_cache = record {
  backend = if is_given use_s3 "true" then s3 else local;
  cached = not (is_given enable_cache "false");
}
