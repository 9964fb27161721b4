-- ===== src/CourseStorage.antt =====
-- lib/storage/courseStorage.ts: the folders of the library index, the courses below a folder, the path
-- of a folder, and the folder that a text names. The recursions of the source follow the folders'
-- parents and end only if these run in no circle: here they have fuel, and the `none` of
-- `add_subfolders` and `climb` is a recursion that ran out of it.
pub mod Subfolders
pub mod Search
pub mod Paths
pub mod Resolution
pub mod Index
pub mod Storage
pub mod Indexed
pub mod Listing
pub mod Hierarchy
pub mod Exports
mod IndexTests
mod Examples
use mathlib.Core.Option
use mirai_app.Prelude.{
  not, nat_eq, ◌&&◌, ◌>>=◌, ℕ, zero, suc, String, Bool, true, false, ◌&&◌, ◌||◌, Option, none, some,
  List, [], ◌∷◌, ◌++◌, str_eq, if◌then◌else◌,
}
use mirai_app.Prelude.Js.{same_text, truthy?, units}

-- A folder of the index; `type` and `children` are not read.
pub record Folder : Type 0 where
  pub id : String
  pub name : String
  pub parent : Option String

pub data CourseStatus : Type 0 where
  draft published : CourseStatus

-- An entry of the index; its author and thumbnail are left out. A date is the time that its text
-- stands for.
pub record LibraryEntry : Type 0 where
  pub id : String
  pub title : String
  pub status : CourseStatus
  pub folder : String
  pub tags : List String
  pub created_at : ℕ
  pub modified_at : ℕ

pub record Library : Type 0 where
  pub version : String
  pub last_updated : ℕ
  pub courses : List LibraryEntry
  pub folders : List Folder

-- The folders of a new library.
abbrev pub initial_folders : List Folder
initial_folders =
    record { id = "library"; name = "Library"; parent = none }
    ∷ record { id = "team"; name = "Team-Name"; parent = some "library" }
    ∷ record { id = "hr"; name = "Human Resources"; parent = some "team" }
    ∷ record { id = "onboarding"; name = "Onboarding"; parent = some "hr" }
    ∷ record { id = "training"; name = "Training"; parent = some "hr" }
    ∷ record { id = "compliance"; name = "Compliance"; parent = some "hr" }
    ∷ record { id = "sales"; name = "Sales Enablement"; parent = some "team" }
    ∷ record { id = "sales-product-knowledge"; name = "Product Knowledge"; parent = some "sales" }
    ∷ record { id = "sales-skills"; name = "Sales Skills"; parent = some "sales" }
    ∷ record { id = "sales-tools"; name = "Tools & Systems"; parent = some "sales" }
    ∷ record { id = "product"; name = "Product"; parent = some "team" }
    ∷ record { id = "product-features"; name = "Feature Training"; parent = some "product" }
    ∷ record { id = "product-roadmap"; name = "Roadmap"; parent = some "product" }
    ∷ record { id = "engineering"; name = "Engineering"; parent = some "team" }
    ∷ record { id = "eng-backend"; name = "Backend Development"; parent = some "engineering" }
    ∷ record { id = "eng-frontend"; name = "Frontend Development"; parent = some "engineering" }
    ∷ record { id = "eng-devops"; name = "DevOps"; parent = some "engineering" }
    ∷ record { id = "personal"; name = "Personal"; parent = some "library" }
    ∷ record { id = "my-drafts"; name = "My Drafts"; parent = some "personal" }
    ∷ record { id = "completed-courses"; name = "Completed Courses"; parent = some "personal" }
    ∷ record { id = "shared-with-me"; name = "Shared with Me"; parent = some "personal" }
    ∷ []

-- `folders.find(f => f.id === id)`.
unfoldable pub find_folder : String → List Folder → Option Folder
find_folder id [] = none
find_folder id (f ∷ fs) = if str_eq f.id id then some f else find_folder id fs

-- `===` between an optional and a string.
abbrev pub is_child_of : String → Folder → Bool
is_child_of p f = elim f.parent [ none ↦ false | some q ↦ str_eq q p ]

-- `folders.filter(f => f.parent === parentId)`.
unfoldable pub children_of : String → List Folder → List Folder
children_of p [] = []
children_of p (f ∷ fs) = let rest = children_of p fs in if is_child_of p f then f ∷ rest else rest

-- The body of `forEach` in addSubfolders: the subfolder's id, and what lies below it.
unfoldable pub add_each : (String → Option (List String)) → List Folder → Option (List String)
add_each below [] = some []
add_each below (f ∷ fs) =
    let rest = add_each below fs in
    (do ids ← below f.id; others ← rest; some (f.id ∷ (ids ++ others)))

-- `addSubfolders`: the ids it adds.
unfoldable pub add_subfolders : ℕ → List Folder → String → Option (List String)
unfolding add_each children_of
add_subfolders zero fs parent_id = none
add_subfolders (suc n) fs parent_id =
    add_each (λ id. add_subfolders n fs id) (children_of parent_id fs)

unfoldable pub has_id : String → List String → Bool
has_id id [] = false
has_id id (i ∷ is) = str_eq i id || has_id id is

-- `courses.filter(course => folderIds.has(course.folder))`.
unfoldable pub courses_in : List String → List LibraryEntry → List LibraryEntry
unfolding has_id
courses_in ids [] = []
courses_in ids (c ∷ cs) =
    let rest = courses_in ids cs in if has_id c.folder ids then c ∷ rest else rest

-- `getCoursesByFolder`.
unfoldable pub get_courses_by_folder : ℕ → Library → String → Bool → Option (List LibraryEntry)
unfolding add_subfolders courses_in
get_courses_by_folder n l folder_id include_subfolders =
    if include_subfolders
    then (do
      ids ← add_subfolders n l.folders folder_id
      some (courses_in (folder_id ∷ ids) l.courses))
    else some (courses_in (folder_id ∷ []) l.courses)

-- The folder that `current.parent` leads to: none for a parent that is falsy or not there.
unfoldable pub parent_folder : List Folder → Folder → Option Folder
unfolding find_folder
parent_folder fs f = elim f.parent [
  | none ↦ none
  | some p ↦ if truthy? (some p) then find_folder p fs else none
]

-- The loop of `getFolderPath`, with the names that are on the path.
unfoldable pub climb : ℕ → List Folder → Folder → List String → Option (List String)
unfolding parent_folder
climb zero fs current path = none
climb (suc n) fs current path = elim (parent_folder fs current) [
  | none ↦ some path
  | some parent ↦ climb n fs parent (parent.name ∷ path)
]

-- `path.join('/')`, in code units.
unfoldable pub join : List String → List ℕ
unfolding units
join [] = []
join (s ∷ []) = units s
join (s ∷ t ∷ ss) = units s ++ 47 ∷ join (t ∷ ss)

-- `getFolderPath`.
unfoldable pub get_folder_path : ℕ → Library → String → Option (List ℕ)
unfolding find_folder climb join
get_folder_path n l folder_id = elim (find_folder folder_id l.folders) [
  | none ↦ some []
  | some f ↦ (do path ← climb n l.folders f (f.name ∷ []); some (join path))
]

-- `split('/')` on code units.
unfoldable pub split_slash : List ℕ → List (List ℕ)
split_slash [] = [] ∷ []
split_slash (c ∷ cs) = elim (split_slash cs) [
  | [] ↦ (c ∷ []) ∷ []
  | part ∷ parts ↦ if nat_eq c 47 then [] ∷ part ∷ parts else (c ∷ part) ∷ parts
]

-- `f.name === part`.
unfoldable pub is_named : List ℕ → Folder → Bool
unfolding units same_text
is_named part f = same_text (units f.name) part

-- `find` by a name, among all folders and among those without a parent.
unfoldable pub find_name : List ℕ → List Folder → Option Folder
unfolding is_named
find_name part [] = none
find_name part (f ∷ fs) = if is_named part f then some f else find_name part fs

unfoldable pub find_root : List ℕ → List Folder → Option Folder
unfolding is_named
find_root part [] = none
find_root part (f ∷ fs) =
    if is_named part f && not (truthy? f.parent) then some f else find_root part fs

-- The loop over the parts of the path from a folder on.
unfoldable pub navigate : List Folder → Folder → List (List ℕ) → Option Folder
unfolding children_of find_name
navigate fs current [] = some current
navigate fs current (part ∷ parts) = elim (find_name part (children_of current.id fs)) [
  | none ↦ none
  | some f ↦ navigate fs f parts
]

-- The match of a path: from a root, if there is more than one part.
unfoldable pub path_match : List Folder → List (List ℕ) → Option Folder
unfolding find_root navigate
path_match fs [] = none
path_match fs (part ∷ []) = none
path_match fs (part ∷ next ∷ parts) = elim (find_root part fs) [
  | none ↦ none
  | some f ↦ navigate fs f (next ∷ parts)
]

abbrev pub or_folder : Option Folder → Option Folder → Option Folder
or_folder none rest = rest
or_folder (some f) rest = some f

-- `getFolderIdFromPath`: by the id, by the name, by the path.
unfoldable pub get_folder_id_from_path : Library → String → Option String
unfolding find_folder find_name path_match split_slash units
get_folder_id_from_path l path_or_name =
    Option.map (λ (f : Folder). f.id)
      (or_folder (find_folder path_or_name l.folders) (
        or_folder (find_name (units path_or_name) l.folders)
          (path_match l.folders (split_slash (units path_or_name)))))
