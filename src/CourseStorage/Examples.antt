-- ===== src/CourseStorage/Examples.antt =====
-- The folders of a new library, with two courses.
use mathlib.Core.List.{Memᴰ}
use mirai_app.Prelude.{
  ℕ, ◌≡◌, ◌↔◌, refl, String, true, some, List, [], ◌∷◌, arith, ◌||◌, str_eq, if◌then◌else◌,
}
use mirai_app.Prelude.Js.{same_text, units}
use mirai_app.CourseStorage.Resolution.{IsIndexed, IsMeant, get_folder_id_from_path-IsMeant}
use mirai_app.CourseStorage.{
  find_name, find_root, is_named, navigate, path_match, split_slash, get_folder_id_from_path,
  Folder, draft, LibraryEntry, Library, initial_folders, find_folder, parent_folder, climb, join,
  get_folder_path, children_of, add_each, add_subfolders, has_id, courses_in, get_courses_by_folder,
}
use mirai_app.CourseStorage.Hierarchy.{
  get_node, build_folder_hierarchy, without_parent, ids_of, children_in, hierarchy_lists,
}
use mirai_app.CourseStorage.Search.{IsRanked, IsInside, courses_by_folder_iff}
use mirai_app.CourseStorage.Paths.{IsPath, get_folder_path-IsPath}

abbrev entry : String → String → LibraryEntry
entry id folder = record {
  id = id;
  title = id;
  status = draft;
  folder = folder;
  tags = [];
  created_at = 0;
  modified_at = 0;
}

abbrev library : Library
library = record {
  version = "1.0";
  last_updated = 0;
  courses = entry "a" "sales-tools" ∷ entry "b" "personal" ∷ entry "c" "sales" ∷ [];
  folders = initial_folders;
}

-- The depth of a folder in the tree.
abbrev depth : String → ℕ
depth id =
    if str_eq id "library"
    then 0
    else if str_eq id "team" || str_eq id "personal"
    then 1
    else if str_eq id "hr" || str_eq id "sales" || str_eq id "product" || str_eq id "engineering"
    then 2
    else 3

library-IsRanked : IsRanked depth 3 library.folders
library-IsRanked = ground arith

sales_courses :
    get_courses_by_folder 5 library "sales" true
    ≡ some (entry "a" "sales-tools" ∷ entry "c" "sales" ∷ [])
unfolding get_courses_by_folder add_subfolders add_each children_of courses_in has_id
sales_courses = refl

tools_path :
    get_folder_path 4 library "sales-tools"
    ≡ some (units "Library/Team-Name/Sales Enablement/Tools & Systems")
unfolding get_folder_path find_folder climb parent_folder join units
tools_path = refl

courses_by_folder_iff_example :
    (found : List LibraryEntry) × (get_courses_by_folder 5 library "sales" true ≡ some found)
    × (Memᴰ (entry "a" "sales-tools") found ↔ (
        Memᴰ (entry "a" "sales-tools") library.courses
        × IsInside library.folders "sales" (entry "a" "sales-tools")))
courses_by_folder_iff_example =
    courses_by_folder_iff depth 3 library "sales" (entry "a" "sales-tools") library-IsRanked

abbrev tools : Folder
tools = record { id = "sales-tools"; name = "Tools & Systems"; parent = some "sales" }

get_folder_path-IsPath_example :
    (path : List ℕ) × IsPath library.folders tools path
    × (get_folder_path 4 library "sales-tools" ≡ some path)
unfolding find_folder
get_folder_path-IsPath_example =
    get_folder_path-IsPath depth 3 library "sales-tools" tools library-IsRanked refl

library-IsIndexed : IsIndexed library.folders
unfolding find_folder
library-IsIndexed = ground arith

resolves : get_folder_id_from_path library "Library/Personal/My Drafts" ≡ some "my-drafts"
unfolding get_folder_id_from_path find_folder find_name find_root is_named navigate path_match
    split_slash children_of same_text units
resolves = refl

get_folder_id_from_path-IsMeant_example :
    (f : Folder) × (f.id ≡ "my-drafts") × IsMeant library.folders "Library/Personal/My Drafts" f
get_folder_id_from_path-IsMeant_example =
    get_folder_id_from_path-IsMeant library "Library/Personal/My Drafts" "my-drafts"
      library-IsIndexed resolves

hierarchy_lists_example :
    (children_in (get_node "hr" (build_folder_hierarchy initial_folders).objects)
      ≡ some (ids_of (children_of "hr" initial_folders)))
    × ((build_folder_hierarchy initial_folders).roots ≡ ids_of (without_parent initial_folders))
unfolding has_id
hierarchy_lists_example = hierarchy_lists "hr" initial_folders refl refl

nests :
    children_in (get_node "hr" (build_folder_hierarchy initial_folders).objects)
    ≡ some ("onboarding" ∷ "training" ∷ "compliance" ∷ [])
unfolding build_folder_hierarchy get_node
nests = refl
