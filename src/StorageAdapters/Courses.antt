-- ===== src/StorageAdapters/Courses.antt =====
-- The course storage over the adapters: the files of lib/storage/courseStorage.ts as paths of an
-- adapter. Over a bucket they are apart; over the file system an id can reach the index.
use mirai_app.Prelude.{◌≡◌, ◌≢◌, ◌⊎◌, inl, inr, refl, ap, ℕ, String, List, [], ◌∷◌, arith}
use mirai_app.Prelude.Js.{Outcome, done, failed, Thrown, concat, units}
use mirai_app.CourseStorage.{Library}
use mirai_app.CourseStorage.Storage.{StoredCourse, CourseFiles, IsApart}
use mirai_app.StorageAdapters.{Adapter}
use mirai_app.StorageAdapters.Bucket.{
  found, S3Client, Environment, S3Config, s3_storage, object_key, read_json, write_json,
  delete_object, object_exists, s3_adapter,
}

-- The casts between JSON values and the file's types: an index survives them.
pub record Casts (J B : Type 0) : Type 0 where
  pub as_library : J → Library
  pub of_library : Library → J
  pub as_course : J → StoredCourse B
  pub of_course : StoredCourse B → J

-- `LIBRARY_FILE` and the path of a course.
abbrev pub library_file : String
library_file = "library.json"

unfoldable pub course_path : String → String
unfolding concat
course_path id = concat "courses/" (concat id ".json")

abbrev cast : {A B : Type 0} → (A → B) → Outcome A → Outcome B
cast f (done a) = done (f a)
cast f (failed e) = failed e

-- The calls of courseStorage.ts on the adapter.
abbrev pub course_files : {S J B : Type 0} → Adapter S J → Casts J B → CourseFiles S B
course_files adapter casts = record {
  ensure_directory = adapter.ensure_directory;
  library_exists = adapter.exists library_file;
  read_library = λ s. cast casts.as_library (adapter.read_json library_file s);
  write_library = λ l s. adapter.write_json library_file (casts.of_library l) s;
  read_course = λ id s. cast casts.as_course (adapter.read_json (course_path id) s);
  write_course = λ id c s. adapter.write_json (course_path id) (casts.of_course c) s;
  delete_course_file = λ id s. adapter.delete_file (course_path id) s;
}

-- A bucket: what was put is there and is read back, and a command changes no other object.
pub record IsBucket {S T : Type 0} (client : S3Client S T) : Type 0 where
  pub put-get :
      (k : String) (b : T) (s s' : S)
      → client.put_object k b s ≡ (done tt, s')
      → (client.get_object k s' ≡ done b) × (client.head_object k s' ≡ found)
  pub put-other :
      (k l : String) (b : T) (s : S)
      → k ≢ l
      → (client.get_object l (client.put_object k b s).1 ≡ client.get_object l s)
        × (client.head_object l (client.put_object k b s).1 ≡ client.head_object l s)
  pub delete-other :
      (k l : String) (s : S)
      → k ≢ l
      → (client.get_object l (client.delete_object k s).1 ≡ client.get_object l s)
        × (client.head_object l (client.delete_object k s).1 ≡ client.head_object l s)

tail-eq : (x y : Prim.Native.Char.Char) (s t : String) → String.◌∷◌ x s ≡ String.◌∷◌ y t → s ≡ t
tail-eq x y s t h = cc

concat_cancel : (s t u : String) → concat s t ≡ concat s u → t ≡ u
unfolding concat
concat_cancel String.[] t u h = h
concat_cancel (String.◌∷◌ c s) t u h = concat_cancel s t u (tail-eq c c (concat s t) (concat s u) h)

course_path-ne : (id : String) → concat "/" (course_path id) ≢ concat "/" library_file
unfolding course_path concat units
course_path-ne id h = different (ap (λ s. second (units s)) h)
  where
    second : List ℕ → ℕ
    second [] = 0
    second (a ∷ []) = 0
    second (a ∷ (b ∷ cs)) = b

    different : ¬ (◌≡◌ {A = ℕ} 99 108)
    different e = omega arith

s3_storage_cases :
    (env : Environment)
    → ((e : Thrown) × (s3_storage env ≡ failed e)) ⊎ ((c : S3Config) × (s3_storage env ≡ done c))
s3_storage_cases env = go (s3_storage env) refl
  where
    go :
        (o : Outcome S3Config)
        → s3_storage env ≡ o
        → ((e : Thrown) × (s3_storage env ≡ failed e))
          ⊎ ((c : S3Config) × (s3_storage env ≡ done c))
    go (failed e) k = inl (e, k)
    go (done c) k = inr (c, k)

module _ {S T J B : Type 0} (client : S3Config → S3Client S T) (stringify : J → T)
    (parse : T → Outcome J) (basename : String → String) (env : Environment) (casts : Casts J B)
    (buckets : (c : S3Config) → IsBucket (client c))
    (parses : (j : J) → parse (stringify j) ≡ done j)
    (survives : (l : Library) → casts.as_library (casts.of_library l) ≡ l) where
  abbrev key : S3Config → String → String
  key = object_key client stringify parse basename env

  keys_apart :
      (c : S3Config) (id : String)
      → object_key client stringify parse basename env c (course_path id)
        ≢ object_key client stringify parse basename env c library_file
  unfolding object_key
  keys_apart c id h = course_path-ne id (concat_cancel c.base_path _ _ h)

  -- The S3 adapter gives the course storage files that are apart.
  pub s3_files-IsApart :
      IsApart (course_files (s3_adapter client stringify parse basename env) casts)
  unfolding read_json write_json delete_object object_exists
  s3_files-IsApart = record {
    write_library-read = λ l s s' h. elim (s3_storage_cases env) [
      | inl (e, k) ↦ ground (arith, k)
      | inr (config, k) ↦ ground (
        arith,
        k,
        h,
        parses (casts.of_library l),
        survives l,
        (buckets config).put-get (key config library_file) (stringify (casts.of_library l)) s s',
      )
    ];
    ensure-keeps = λ d s. (refl, refl);
    write_course-keeps = λ id c s. elim (s3_storage_cases env) [
      | inl (e, k) ↦ ground (arith, k)
      | inr (config, k) ↦ ground (
        arith,
        k,
        (buckets config).put-other (key config (course_path id)) (key config library_file)
            (stringify (casts.of_course c)) s (keys_apart config id),
      )
    ];
    delete-keeps = λ id s. elim (s3_storage_cases env) [
      | inl (e, k) ↦ ground (arith, k)
      | inr (config, k) ↦ ground (
        arith,
        k,
        (buckets config).delete-other (key config (course_path id)) (key config library_file) s
            (keys_apart config id),
      )
    ];
  }
