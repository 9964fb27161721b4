-- ===== src/CourseStorage/Storage.antt =====
-- The files of lib/storage/courseStorage.ts: the index library.json and the courses/<id>.json, over the
-- storage adapter, which is a parameter. The contents of a course are not read; the texts of the dates
-- are the times that they stand for.
use mirai_app.Prelude.{ℕ, ◌≡◌, String, Bool, true, Option, List}
use mirai_app.Prelude.Js.{Outcome, done}
use mirai_app.CourseStorage.{CourseStatus, Library}

pub record CourseMetadata : Type 0 where
  pub id : String
  pub version : ℕ
  pub status : CourseStatus
  pub created_at : ℕ
  pub modified_at : ℕ

pub record CourseSettings : Type 0 where
  pub title : String
  pub desired_outcome : String
  pub destination_folder : String
  pub category_tags : List String
  pub data_source : String

-- `StoredCourse`, and `Partial<StoredCourse>`.
pub record StoredCourse (B : Type 0) : Type 0 where
  pub id : String
  pub version : ℕ
  pub status : CourseStatus
  pub metadata : CourseMetadata
  pub settings : CourseSettings
  pub personas : B
  pub learning_objectives : B
  pub assessment_settings : B
  pub content : B
  pub exports : Option B

pub record PartialCourse (B : Type 0) : Type 0 where
  pub id : Option String
  pub version : Option ℕ
  pub status : Option CourseStatus
  pub metadata : Option CourseMetadata
  pub settings : Option CourseSettings
  pub personas : Option B
  pub learning_objectives : Option B
  pub assessment_settings : Option B
  pub content : Option B
  pub exports : Option B

-- The contents that a new course starts with, and the time at which an operation writes the index.
pub record Defaults (B : Type 0) : Type 0 where
  pub no_personas : B
  pub no_objectives : B
  pub no_assessment : B
  pub no_content : B
  pub no_exports : B
  pub saved_at : ℕ

-- What the file calls of the storage adapter.
pub record CourseFiles (S B : Type 0) : Type 0 where
  pub ensure_directory : String → S → Outcome (Unit {0}) × S
  pub library_exists : S → Outcome Bool
  pub read_library : S → Outcome Library
  pub write_library : Library → S → Outcome (Unit {0}) × S
  pub read_course : String → S → Outcome (StoredCourse B)
  pub write_course : String → StoredCourse B → S → Outcome (Unit {0}) × S
  pub delete_course_file : String → S → Outcome (Unit {0}) × S

-- An adapter whose files are apart: a file that was written is read back, and the index is changed by
-- its own writes only.
pub record IsApart {S B : Type 0} (files : CourseFiles S B) : Type 0 where
  pub write_library-read :
      (l : Library) (s s' : S)
      → files.write_library l s ≡ (done tt, s')
      → (files.library_exists s' ≡ done true) × (files.read_library s' ≡ done l)
  pub ensure-keeps :
      (d : String) (s : S)
      → (files.library_exists (files.ensure_directory d s).1 ≡ files.library_exists s)
        × (files.read_library (files.ensure_directory d s).1 ≡ files.read_library s)
  pub write_course-keeps :
      (id : String) (c : StoredCourse B) (s : S)
      → (files.library_exists (files.write_course id c s).1 ≡ files.library_exists s)
        × (files.read_library (files.write_course id c s).1 ≡ files.read_library s)
  pub delete-keeps :
      (id : String) (s : S)
      → (files.library_exists (files.delete_course_file id s).1 ≡ files.library_exists s)
        × (files.read_library (files.delete_course_file id s).1 ≡ files.read_library s)
