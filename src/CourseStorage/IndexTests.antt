-- ===== src/CourseStorage/IndexTests.antt =====
-- Files in memory, and courses that are created, updated and deleted in them.
use mirai_app.Prelude.{
  Option, ℕ, ◌≡◌, refl, String, Bool, true, none, some, List, [], ◌∷◌, arith, str_eq, if◌then◌else◌,
}
use mirai_app.Prelude.Js.{Outcome, done, failed, Thrown, units, includes}
use mathlib.Core.List.{Perm}
use mirai_app.CourseStorage.{CourseStatus, draft, published, LibraryEntry, Library, initial_folders}
use mirai_app.CourseStorage.Listing.{
  Filters, IsNewestFirst, select, meets, list_courses, list_courses-lists,
}
use mirai_app.CourseStorage.Storage.{
  CourseSettings, StoredCourse, PartialCourse, Defaults, CourseFiles, IsApart,
}
use mirai_app.CourseStorage.Index.{
  and_then, empty_library, initial_library, new_course, new_entry, create_course, delete_course,
  merged, find_entry, is_folder_name,
}
use mirai_app.CourseStorage.Indexed.{IsIndexed, delete-create, unread_index_lost}

record Memory : Type 0 where
  there : Bool
  index : Outcome Library
  courses : List (StoredCourse ℕ)

read_file : String → List (StoredCourse ℕ) → Outcome (StoredCourse ℕ)
read_file id [] = failed (Thrown.plain "ENOENT")
read_file id (c ∷ cs) = if str_eq c.id id then done c else read_file id cs

remove_file : String → List (StoredCourse ℕ) → List (StoredCourse ℕ)
remove_file id [] = []
remove_file id (c ∷ cs) = let rest = remove_file id cs in if str_eq c.id id then rest else c ∷ rest

abbrev files : CourseFiles Memory ℕ
files = record {
  ensure_directory = λ d s. (done tt, s);
  library_exists = λ s. done s.there;
  read_library = λ s. s.index;
  write_library = λ l s. (done tt, record s { there = true; index = done l });
  read_course = λ id s. read_file id s.courses;
  write_course = λ id c s. (done tt, record s { courses = c ∷ remove_file id s.courses });
  delete_course_file = λ id s. (done tt, record s { courses = remove_file id s.courses });
}

files-IsApart : IsApart files
files-IsApart = record {
  write_library-read = λ l s s' h. ground (arith, h);
  ensure-keeps = λ d s. (refl, refl);
  write_course-keeps = λ id c s. (refl, refl);
  delete-keeps = λ id s. (refl, refl);
}

abbrev defaults : Defaults ℕ
defaults = record {
  no_personas = 0;
  no_objectives = 0;
  no_assessment = 0;
  no_content = 0;
  no_exports = 0;
  saved_at = 6;
}

abbrev settings : CourseSettings
settings = record {
  title = "T";
  desired_outcome = "learn";
  destination_folder = "Onboarding";
  category_tags = [];
  data_source = "open-web";
}

abbrev given : PartialCourse ℕ
given = record {
  id = none;
  version = none;
  status = none;
  metadata = none;
  settings = some settings;
  personas = none;
  learning_objectives = none;
  assessment_settings = none;
  content = none;
  exports = none;
}

abbrev first : StoredCourse ℕ
first = new_course defaults 5 "course-1" given

abbrev start : Memory
start = record { there = true; index = done (initial_library 0); courses = [] }

abbrev after_creation : Memory
after_creation = record {
  there = true;
  index = done (record {
    version = "1.0";
    last_updated = 6;
    courses = new_entry first "onboarding" ∷ [];
    folders = initial_folders;
  });
  courses = first ∷ [];
}

-- The name of the folder is resolved to its id.
creates : create_course files defaults 5 "course-1" given start ≡ (done first, after_creation)
unfolding create_course and_then is_folder_name units includes remove_file new_course
creates = refl

start-IsIndexed : IsIndexed files defaults files-IsApart (done (initial_library 0)) start
start-IsIndexed = record { there = refl; reads = refl }

delete-create_example :
    IsIndexed files defaults files-IsApart
      (done (initial_library 9))
      (delete_course files (record defaults { saved_at = 9 }) "course-1" after_creation).1
unfolding create_course delete_course and_then is_folder_name units includes remove_file new_course
    find_entry
delete-create_example =
    delete-create files defaults files-IsApart 5 9 "course-1" given (initial_library 0) start
      after_creation
      (delete_course files (record defaults { saved_at = 9 }) "course-1" after_creation).1 first
      start-IsIndexed refl refl refl

abbrev unreadable : Memory
unreadable = record { there = true; index = failed (Thrown.plain "EIO"); courses = [] }

unreadable-IsIndexed :
    IsIndexed files defaults files-IsApart (failed (Thrown.plain "EIO")) unreadable
unreadable-IsIndexed = record { there = refl; reads = refl }

abbrev after_deletion : Memory
after_deletion = record { there = true; index = done (empty_library 6); courses = [] }

abbrev after_recreation : Memory
after_recreation = record {
  there = true;
  index = done (record {
    version = "1.0";
    last_updated = 6;
    courses = new_entry first "Onboarding" ∷ [];
    folders = [];
  });
  courses = first ∷ [];
}

unread_index_lost_example :
    IsIndexed files defaults files-IsApart (done (empty_library 6)) after_deletion
    × ((folder : String) × IsIndexed files defaults files-IsApart
          (done (record {
            version = "1.0";
            last_updated = 6;
            courses = new_entry first folder ∷ [];
            folders = [];
          }))
          after_recreation)
unfolding create_course delete_course and_then is_folder_name units includes remove_file new_course
unread_index_lost_example =
    unread_index_lost files defaults files-IsApart "course-1" "course-1" 5 given
      (Thrown.plain "EIO") unreadable after_deletion after_recreation first unreadable-IsIndexed
      refl refl

-- The version of the metadata is counted from that of the course, which no update raises.
version_stays :
    (merged 7 (merged 6 first given) given).metadata.version
    ≡ (merged 6 first given).metadata.version
unfolding merged new_course
version_stays = refl

-- Two drafts and a published course.
abbrev entry_of : String → CourseStatus → ℕ → LibraryEntry
entry_of id status date = record {
  id = id;
  title = id;
  status = status;
  folder = "hr";
  tags = "safety" ∷ [];
  created_at = 1;
  modified_at = date;
}

abbrev three_courses : Library
three_courses = record {
  version = "1.0";
  last_updated = 0;
  courses = entry_of "a" draft 3 ∷ entry_of "b" published 9 ∷ entry_of "c" draft 7 ∷ [];
  folders = initial_folders;
}

abbrev with_three : Memory
with_three = record { there = true; index = done three_courses; courses = [] }

abbrev drafts : Option Filters
drafts = some (record { status = some draft; folder = some ""; tags = some ("safety" ∷ []) })

list_courses-lists_example :
    IsNewestFirst (entry_of "c" draft 7 ∷ entry_of "a" draft 3 ∷ [])
    × Perm
        (entry_of "c" draft 7 ∷ entry_of "a" draft 3 ∷ [])
        (select (meets drafts) three_courses.courses)
    × IsIndexed files defaults files-IsApart (done three_courses) with_three
unfolding list_courses and_then
list_courses-lists_example =
    list_courses-lists files defaults files-IsApart drafts three_courses with_three with_three
      (entry_of "c" draft 7 ∷ entry_of "a" draft 3 ∷ []) (record { there = refl; reads = refl })
      refl
