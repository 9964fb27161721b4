-- ===== src/CourseStorage/Exports.antt =====
-- getRecentCourses, getFolders and exportCourseToSCORM of lib/storage/courseStorage.ts. `since` is
-- the time seven days before, and `stamp` the text of the time without colons and full stops.
use mirai_app.Prelude.{◌≡◌, ℕ, String, Option, none, some, List, ltb, arith}
use mathlib.Core.Path.{subst}
use mathlib.Core.List.{Perm}
use mirai_app.Prelude.Js.{Outcome, done, failed, Thrown, concat}
use mirai_app.CourseStorage.{Folder, LibraryEntry, Library}
use mirai_app.CourseStorage.Storage.{StoredCourse, PartialCourse, CourseFiles, Defaults, IsApart}
use mirai_app.CourseStorage.Index.{and_then, load_library, load_course, update_course}
use mirai_app.CourseStorage.Indexed.{and_then-done, IsIndexed, load_library-loaded}
use mirai_app.CourseStorage.Listing.{
  select, newest_first, IsNewestFirst, newest_first-IsNewestFirst, newest_first-perm,
}

-- The record of an export.
pub record ExportRecord : Type 0 where
  pub id : String
  pub timestamp : ℕ
  pub format : String
  pub version : ℕ
  pub file_path : String

-- A whole course as the updates of updateCourse.
abbrev all_of_it : {B : Type 0} → StoredCourse B → PartialCourse B
all_of_it c = record {
  id = some c.id;
  version = some c.version;
  status = some c.status;
  metadata = some c.metadata;
  settings = some c.settings;
  personas = some c.personas;
  learning_objectives = some c.learning_objectives;
  assessment_settings = some c.assessment_settings;
  content = some c.content;
  exports = c.exports;
}

unfoldable pub export_path : String → String → String
unfolding concat
export_path id stamp = concat "exports/" (concat id (concat "/scorm-" (concat stamp ".zip")))

module _ {S B : Type 0} (files : CourseFiles S B) (defaults : Defaults B) where
  -- `getRecentCourses`.
  unfoldable pub get_recent_courses : ℕ → S → Outcome (List LibraryEntry) × S
  unfolding load_library select newest_first
  get_recent_courses since s =
      and_then (load_library files defaults s)
        (λ l s1. (done (newest_first (select (λ e. ltb since e.modified_at) l.courses)), s1))

  -- `getFolders`.
  pub get_folders : S → Outcome (List Folder) × S
  unfolding load_library
  get_folders s = and_then (load_library files defaults s) (λ l s1. (done l.folders, s1))

  -- `exportCourseToSCORM`; `push_export` adds a record to the exports, which may be missing.
  pub export_course_to_scorm :
      (Option B → ExportRecord → B) → ℕ → String → String → String → S → Outcome String × S
  unfolding load_course update_course export_path
  export_course_to_scorm push_export now stamp fresh id s = elim (load_course files defaults id s) [
    | none ↦ (failed (Thrown.plain (concat "Course " (concat id " not found"))), s)
    | some c ↦
        let made : ExportRecord = record {
          id = concat "export-" fresh;
          timestamp = now;
          format = "scorm-1.2";
          version = c.version;
          file_path = export_path id stamp;
        } in
        and_then
          (update_course files defaults now id
            (all_of_it (record c { exports = some (push_export c.exports made) })) s)
          (λ u s1. (done (export_path id stamp), s1))
  ]

  -- Over an adapter whose files are apart, with an index that can be read, the recent courses are
  -- the entries of the index that were modified after the time, the newest first; and the index
  -- stays as it was.
  pub get_recent_courses-lists :
      (laws : IsApart files) (since : ℕ) (l : Library) (s s' : S) (es : List LibraryEntry)
      → IsIndexed files defaults laws (done l) s
      → get_recent_courses since s ≡ (done es, s')
      → IsNewestFirst es
        × Perm es (select (λ e. ltb since e.modified_at) l.courses)
        × IsIndexed files defaults laws (done l) s'
  unfolding get_recent_courses
  get_recent_courses-lists laws since l s s' es i h =
      let recent : Library → List LibraryEntry =
        λ k. select (λ e. ltb since e.modified_at) k.courses in
      let s1 = (load_library files defaults s).1 in
      let (m, e1, h1) = and_then-done _ _ h in
      let (em, i1) = load_library-loaded files defaults laws (done l) s m s1 i e1 in
      let listed : newest_first (recent m) ≡ es = ground (arith, h1) in
      let same : s1 ≡ s' = ground (arith, h1) in
      (
        subst IsNewestFirst listed (newest_first-IsNewestFirst (recent m)),
        subst (λ xs. Perm xs (recent l)) listed
            (subst (λ (k : Library). Perm (newest_first (recent m)) (recent k)) em
              (newest_first-perm (recent m))),
        subst (λ t. IsIndexed files defaults laws (done l) t) same i1,
      )
