-- ===== src/StorageAdapters/Examples.antt =====
-- A file system and a bucket in memory.
use mirai_app.Prelude.{
  ◌≡◌, ◌≢◌, refl, ℕ, String, Option, none, some, List, [], ◌∷◌, arith, str_eq, eq_iff,
  if◌then◌else◌,
}
use mirai_app.Prelude.Js.{Outcome, done, failed, Thrown, concat}
use mirai_app.CourseStorage.{draft, Library}
use mirai_app.CourseStorage.Storage.{StoredCourse, IsApart}
use mirai_app.CourseStorage.Index.{empty_library}
use mirai_app.StorageAdapters.Local.{FileSystem, list_files}
use mirai_app.StorageAdapters.Bucket.{
  HeadResult, found, refused, S3Client, Environment, S3Config, s3_storage, s3_adapter,
}
use mirai_app.StorageAdapters.Courses.{Casts, IsBucket, course_files, s3_files-IsApart}

-- A JSON value is an index or a course; it is its own text.
data Json : Type 0 where
  index : Library → Json
  course : StoredCourse ℕ → Json

abbrev as_library : Json → Library
as_library (index l) = l
as_library (course c) = empty_library 0

abbrev no_course : StoredCourse ℕ
no_course = record {
  id = "";
  version = 1;
  status = draft;
  metadata = record { id = ""; version = 1; status = draft; created_at = 0; modified_at = 0 };
  settings = record {
    title = "";
    desired_outcome = "";
    destination_folder = "";
    category_tags = [];
    data_source = "";
  };
  personas = 0;
  learning_objectives = 0;
  assessment_settings = 0;
  content = 0;
  exports = none;
}

abbrev as_course : Json → StoredCourse ℕ
as_course (index l) = no_course
as_course (course c) = c

abbrev casts : Casts Json ℕ
casts = record {
  as_library = as_library;
  of_library = index;
  as_course = as_course;
  of_course = course;
}

abbrev Store : Type 0
Store = List (String × Json)

find : String → Store → Option Json
find p [] = none
find p ((q, j) ∷ s) = if str_eq q p then some j else find p s

erase : String → Store → Store
erase p [] = []
erase p ((q, j) ∷ s) = let rest = erase p s in if str_eq q p then rest else (q, j) ∷ rest

find-erase_ne : (p q : String) (s : Store) → p ≢ q → find q (erase p s) ≡ find q s
unfolding find erase
find-erase_ne p q [] ne = refl
find-erase_ne p q ((r, j) ∷ s) ne = ground (arith, find-erase_ne p q s ne, eq_iff r p, eq_iff r q)

find-cons_ne : (p q : String) (j : Json) (s : Store) → p ≢ q → find q ((p, j) ∷ s) ≡ find q s
unfolding find
find-cons_ne p q j s ne = ground (arith, eq_iff p q)

find-cons_self : (p : String) (j : Json) (s : Store) → find p ((p, j) ∷ s) ≡ some j
unfolding find
find-cons_self p j s = ground (arith, eq_iff p p)

abbrev read_or_fail : Option Json → Outcome Json
read_or_fail none = failed (Thrown.plain "ENOENT")
read_or_fail (some j) = done j

abbrev head_of : Option Json → HeadResult
head_of none = refused "NotFound" (some 404) (Thrown.plain "NotFound")
head_of (some j) = found

abbrev client : S3Config → S3Client Store Json
client c = record {
  get_object = λ k s. read_or_fail (find k s);
  put_object = λ k b s. (done tt, (k, b) ∷ s);
  list_objects = λ p s. done none;
  delete_object = λ k s. (done tt, erase k s);
  head_object = λ k s. head_of (find k s);
}

client-IsBucket : (c : S3Config) → IsBucket (client c)
client-IsBucket c = record {
  put-get = λ k b s s' h. ground (arith, h, find-cons_self k b s);
  put-other = λ k l b s ne. ground (arith, find-cons_ne k l b s ne);
  delete-other = λ k l s ne. ground (arith, find-erase_ne k l s ne);
}

abbrev env : Environment
env = record {
  endpoint = none;
  region = none;
  bucket = none;
  base_path = none;
  access_key = some "key";
  secret_key = some "secret";
}

abbrev itself : Json → Json
itself j = j

abbrev parsed : Json → Outcome Json
parsed j = done j

s3_files-IsApart_example :
    IsApart (course_files (s3_adapter client itself parsed (λ p. p) env) casts)
s3_files-IsApart_example =
    s3_files-IsApart client itself parsed (λ p. p) env casts client-IsBucket (λ j. refl) (λ l. refl)

refuses_keys :
    s3_storage (record env { secret_key = some "" })
    ≡ failed (
        Thrown.plain
          "S3_ACCESS_KEY and S3_SECRET_KEY environment variables are required. Never hardcode credentials in source code!")
unfolding s3_storage
refuses_keys = refl

-- The file system, and the joins of the paths that are used.
abbrev fs : FileSystem Store Json
fs = record {
  read_file = λ p s. read_or_fail (find p s);
  write_file = λ p b s. (done tt, (p, b) ∷ s);
  readdir = λ p s. done ("a.json" ∷ "notes.txt" ∷ []);
  make_directory = λ p s. (done tt, s);
  unlink = λ p s. (done tt, erase p s);
  access = λ p s. done tt;
}

abbrev path_join : String → String → String
path_join base p = concat base (concat "/" p)

only_json :
    list_files fs path_join (λ p. p) itself parsed "/data" "courses" [] ≡ done ("a.json" ∷ [])
unfolding list_files
only_json = refl
