-- ===== src/CourseStorage/Index.antt =====
-- The operations of lib/storage/courseStorage.ts on courses and the index: an operation throws, or
-- gives its result, with the files after it.
use mirai_app.Prelude.{
  ℕ, ◌+◌, String, Bool, true, false, not, ◌&&◌, Option, none, some, List, [], ◌∷◌, ◌++◌, str_eq,
  if◌then◌else◌,
}
use mirai_app.Prelude.Js.{Outcome, done, failed, truthy, or_text, units, includes}
use mirai_app.CourseStorage.{draft, LibraryEntry, Library, initial_folders, get_folder_id_from_path}
use mirai_app.CourseStorage.Storage.{
  CourseMetadata, CourseSettings, StoredCourse, PartialCourse, Defaults, CourseFiles,
}

-- `await` in a chain of calls.
unfoldable pub and_then {ℓ} :
    {A B S : Type ℓ} → Outcome A × S → (A → S → Outcome B × S) → Outcome B × S
and_then (failed e, s) k = (failed e, s)
and_then (done a, s) k = k a s

-- `a ?? d` and, for objects and arrays, `a || d`.
abbrev or_else {ℓ} : {A : Type ℓ} → Option A → A → A
or_else none d = d
or_else (some a) d = a

-- `findIndex` with the entry there, and the assignment to that index.
unfoldable pub find_entry : String → List LibraryEntry → Option LibraryEntry
find_entry id [] = none
find_entry id (e ∷ es) = if str_eq e.id id then some e else find_entry id es

unfoldable pub replace_entry : String → LibraryEntry → List LibraryEntry → List LibraryEntry
replace_entry id new [] = []
replace_entry id new (e ∷ es) =
    let rest = replace_entry id new es in if str_eq e.id id then new ∷ es else e ∷ rest

-- `courses.filter(c => c.id !== courseId)`.
unfoldable pub without_entry : String → List LibraryEntry → List LibraryEntry
without_entry id [] = []
without_entry id (e ∷ es) =
    let rest = without_entry id es in if str_eq e.id id then rest else e ∷ rest

-- A text that looks like the name of a folder.
unfoldable pub is_folder_name : String → Bool
unfolding units includes
is_folder_name f =
    truthy f && not (includes (units f) (units "/")) && not (includes (units f) (units "-"))

-- The libraries that loadLibrary and ensureDirectories make at a time.
abbrev pub empty_library : ℕ → Library
empty_library now = record { version = "1.0"; last_updated = now; courses = []; folders = [] }

abbrev pub initial_library : ℕ → Library
initial_library now = record {
  version = "1.0";
  last_updated = now;
  courses = [];
  folders = initial_folders;
}

abbrev untitled : CourseSettings
untitled = record {
  title = "Untitled Course";
  desired_outcome = "";
  destination_folder = "";
  category_tags = [];
  data_source = "open-web";
}

-- The course that createCourse writes, and its entry in the index.
unfoldable pub new_course :
    {B : Type 0} → Defaults B → ℕ → String → PartialCourse B → StoredCourse B
new_course defaults now fresh given =
    let id = or_text given.id fresh in
    let metadata : CourseMetadata = record {
      id = id;
      version = 1;
      status = draft;
      created_at = now;
      modified_at = now;
    } in
    record {
      id = id;
      version = 1;
      status = draft;
      metadata = or_else given.metadata metadata;
      settings = or_else given.settings untitled;
      personas = or_else given.personas defaults.no_personas;
      learning_objectives = or_else given.learning_objectives defaults.no_objectives;
      assessment_settings = or_else given.assessment_settings defaults.no_assessment;
      content = or_else given.content defaults.no_content;
      exports = some defaults.no_exports;
    }

unfoldable pub new_entry : {B : Type 0} → StoredCourse B → String → LibraryEntry
new_entry c folder = record {
  id = c.id;
  title = c.settings.title;
  status = c.status;
  folder = folder;
  tags = c.settings.category_tags;
  created_at = c.metadata.created_at;
  modified_at = c.metadata.modified_at;
}

-- The merge of updateCourse, and the entry after it.
unfoldable pub merged : {B : Type 0} → ℕ → StoredCourse B → PartialCourse B → StoredCourse B
merged now c u = record {
  id = or_else u.id c.id;
  version = or_else u.version c.version;
  status = or_else u.status c.status;
  metadata = record (or_else u.metadata c.metadata) { modified_at = now; version = c.version + 1 };
  settings = or_else u.settings c.settings;
  personas = or_else u.personas c.personas;
  learning_objectives = or_else u.learning_objectives c.learning_objectives;
  assessment_settings = or_else u.assessment_settings c.assessment_settings;
  content = or_else u.content c.content;
  exports = elim u.exports [ none ↦ c.exports | some x ↦ some x ];
}

unfoldable pub changed_entry : {B : Type 0} → StoredCourse B → LibraryEntry → String → LibraryEntry
changed_entry c e folder = record e {
  title = or_text (some c.settings.title) e.title;
  status = c.status;
  folder = folder;
  tags = c.settings.category_tags;
  modified_at = c.metadata.modified_at;
}

module _ {S B : Type 0} (files : CourseFiles S B) (defaults : Defaults B) where
  -- `ensureDirectories`.
  unfoldable pub ensure_library : S → Outcome (Unit {0}) × S
  ensure_library s = elim (files.library_exists s) [
    | failed e ↦ (failed e, s)
    | done true ↦ (done tt, s)
    | done false ↦ files.write_library (initial_library defaults.saved_at) s
  ]

  unfoldable pub ensure_directories : S → Outcome (Unit {0}) × S
  unfolding ensure_library
  ensure_directories s =
      and_then (files.ensure_directory "courses" s)
        (λ u s1. and_then (files.ensure_directory "exports" s1) (λ v s2. ensure_library s2))

  -- `loadLibrary`: an index that cannot be read is taken as an empty one.
  unfoldable pub read_or_empty : S → Library
  read_or_empty s = elim (files.read_library s) [
    | done l ↦ l
    | failed e ↦ empty_library defaults.saved_at
  ]

  unfoldable pub load_library : S → Outcome Library × S
  unfolding ensure_directories read_or_empty
  load_library s = and_then (ensure_directories s) (λ u s1. (done (read_or_empty s1), s1))

  -- `saveLibrary`.
  unfoldable pub save_library : Library → S → Outcome (Unit {0}) × S
  save_library l s = files.write_library (record l { last_updated = defaults.saved_at }) s

  -- The folder of an entry: the id for what looks like a name, if one is found.
  unfoldable pub resolve_folder : String → S → Outcome String × S
  unfolding load_library get_folder_id_from_path is_folder_name
  resolve_folder folder s =
      if is_folder_name folder
      then and_then (load_library s)
          (λ l s1. (done (or_text (get_folder_id_from_path l folder) folder), s1))
      else (done folder, s)

  -- `createCourse`; `fresh` is the id with the new UUID.
  unfoldable pub create_course : ℕ → String → PartialCourse B → S → Outcome (StoredCourse B) × S
  unfolding ensure_directories load_library save_library resolve_folder new_course new_entry
  create_course now fresh given s =
      let c = new_course defaults now fresh given in
      and_then (ensure_directories s) (λ u s1. and_then (files.write_course c.id c s1) (λ v s2.
        and_then (load_library s2) (λ l s3.
          and_then (resolve_folder c.settings.destination_folder s3) (λ folder s4.
            and_then (save_library (record l { courses = l.courses ++ new_entry c folder ∷ [] }) s4)
              (λ w s5. (done c, s5))))))

  -- `loadCourse`.
  unfoldable pub load_course : String → S → Option (StoredCourse B)
  load_course id s = elim (files.read_course id s) [ done c ↦ some c | failed e ↦ none ]

  -- `updateCourse`.
  unfoldable pub update_entry : String → StoredCourse B → Library → S → Outcome (Unit {0}) × S
  unfolding save_library resolve_folder find_entry replace_entry changed_entry
  update_entry id c l s = elim (find_entry id l.courses) [
    | none ↦ (done tt, s)
    | some e ↦
        and_then (resolve_folder (or_text (some c.settings.destination_folder) e.folder) s)
          (λ folder s1.
            save_library
              (record l { courses = replace_entry id (changed_entry c e folder) l.courses }) s1)
  ]

  unfoldable pub update_course :
      ℕ → String → PartialCourse B → S → Outcome (Option (StoredCourse B)) × S
  unfolding load_course load_library merged update_entry
  update_course now id updates s = elim (load_course id s) [
    | none ↦ (done none, s)
    | some c ↦
        let c' = merged now c updates in
        and_then (files.write_course id c' s) (λ u s1.
          and_then (load_library s1)
            (λ l s2. and_then (update_entry id c' l s2) (λ v s3. (done (some c'), s3))))
  ]

  -- `deleteCourse`, which catches what is thrown.
  unfoldable pub remove_course : String → S → Outcome (Unit {0}) × S
  unfolding load_library save_library without_entry
  remove_course id s = and_then (files.delete_course_file id s) (λ u s1.
      and_then (load_library s1)
        (λ l s2. save_library (record l { courses = without_entry id l.courses }) s2))

  abbrev succeeded : Outcome (Unit {0}) → Bool
  succeeded (done u) = true
  succeeded (failed e) = false

  unfoldable pub delete_course : String → S → Bool × S
  unfolding remove_course
  delete_course id s = let r = remove_course id s in (succeeded r.0, r.1)
