-- ===== src/CachedStorage/Keys.antt =====
-- The keys of the cache: CacheKeys of lib/cache/redisCache.ts, and getCacheKey of
-- lib/storage/cachedStorageAdapter.ts.
use mirai_app.Prelude.{
  ℕ, Bool, ◌&&◌, ◌||◌, Option, none, some, [], ◌∷◌, ◌++◌, map, nat_eq, leb, if◌then◌else◌,
}
use mirai_app.Prelude.Js.{units, includes, has_prefix}
use mirai_app.RedisCache.Client.{Text}

abbrev pub library_key : Text
library_key = units "library:index"

abbrev pub folders_key : Text
folders_key = units "folders:hierarchy"

abbrev pub folder_counts_key : Text
folder_counts_key = units "folders:hierarchy:withCounts"

abbrev pub course_key : Text → Text
course_key id = units "course:" ++ id

-- The longest text without a slash that `.json` follows, not empty: `([^/]+)\.json` at a position.
unfoldable pub name_before_json : Text → Option Text
name_before_json [] = none
name_before_json (c ∷ cs) =
    let rest = name_before_json cs in
    if nat_eq c 47 then none else elim rest [
      | some name ↦ some (c ∷ name)
      | none ↦ if has_prefix cs (units ".json") then some (c ∷ []) else none
    ]

-- The text behind a prefix.
unfoldable pub after_prefix : Text → Text → Option Text
after_prefix cs [] = some cs
after_prefix [] (p ∷ ps) = none
after_prefix (c ∷ cs) (p ∷ ps) = if nat_eq c p then after_prefix cs ps else none

-- `filePath.match(/course-([^/]+)\.json/)`, the group of the first match.
unfoldable pub course_match : Text → Option Text
unfolding after_prefix name_before_json units
course_match [] = none
course_match (c ∷ cs) =
    let rest = course_match cs in
    elim (after_prefix (c ∷ cs) (units "course-")) [
      | none ↦ rest
      | some behind ↦ elim (name_before_json behind) [ none ↦ rest | some id ↦ some id ]
    ]

-- `[a-zA-Z0-9]`.
abbrev is_alphanumeric : ℕ → Bool
is_alphanumeric c = (leb 97 c && leb c 122) || (leb 65 c && leb c 90) || (leb 48 c && leb c 57)

unfoldable pub is_library : Text → Bool
unfolding includes units
is_library path = includes path (units "library.json")

-- `getCacheKey`.
unfoldable pub cache_key : Text → Text
unfolding course_match units is_library
cache_key path = if is_library path then library_key else elim (course_match path) [
  | some id ↦ course_key id
  | none ↦ units "file:" ++ map (λ (c : ℕ). if is_alphanumeric c then c else 58) path
]

abbrev pub exists_key : Text → Text
exists_key path = units "exists:" ++ cache_key path
