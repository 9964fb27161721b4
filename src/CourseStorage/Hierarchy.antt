-- ===== src/CourseStorage/Hierarchy.antt =====
-- buildFolderHierarchy of lib/storage/courseStorage.ts: the objects of the folders, which share
-- their children by reference. An object is known by its key in the map, which no step after the
-- first pass changes, and its children by theirs.
use mathlib.Core.List.{append-nil, append_assoc}
use mirai_app.Prelude.{
  ◌≡◌, inl, inr, Bool-cases, refl, sym, ap, ◌∙◌, String, true, Option, none, some, List, [], ◌∷◌,
  ◌++◌, map, arith, str_eq, eq_iff, if◌then◌else◌,
}
use mirai_app.Prelude.Js.{truthy, truthy?}
use mirai_app.CourseStorage.{Folder, is_child_of, children_of, has_id}

pub record FolderNode : Type 0 where
  pub folder : Folder
  pub children : List String

-- The map from ids to objects.
pub data Objects : Type 0 where
  empty : Objects
  entry : String → FolderNode → Objects → Objects

-- `folderMap.get`, `folderMap.set`: a key keeps its place.
unfoldable pub get_node : String → Objects → Option FolderNode
get_node id empty = none
get_node id (entry k n os) = if str_eq k id then some n else get_node id os

unfoldable pub set_node : String → FolderNode → Objects → Objects
set_node id n empty = entry id n empty
set_node id n (entry k m os) =
    let rest = set_node id n os in if str_eq k id then entry k n os else entry k m rest

-- The first pass.
unfoldable pub create_nodes : List Folder → Objects → Objects
unfolding set_node
create_nodes [] os = os
create_nodes (f ∷ fs) os = create_nodes fs (set_node f.id (record { folder = f; children = [] }) os)

-- `parent.children.push(folderObj)`, on the object with the key.
unfoldable pub push_child : String → String → Objects → Objects
push_child id child empty = empty
push_child id child (entry k n os) =
    let rest = push_child id child os in
    if str_eq k id
    then entry k (record n { children = n.children ++ child ∷ [] }) os
    else entry k n rest

pub record Hierarchy : Type 0 where
  pub objects : Objects
  pub roots : List String

-- The second pass: a folder whose parent is not in the map is left out.
abbrev place : Folder → Hierarchy → Hierarchy
place f h = elim f.parent [
  | none ↦ record h { roots = h.roots ++ f.id ∷ [] }
  | some p ↦
      if truthy p
      then record h { objects = push_child p f.id h.objects }
      else record h { roots = h.roots ++ f.id ∷ [] }
]

unfoldable pub link_nodes : List Folder → Hierarchy → Hierarchy
unfolding push_child
link_nodes [] h = h
link_nodes (f ∷ fs) h = link_nodes fs (place f h)

-- `buildFolderHierarchy`.
unfoldable pub build_folder_hierarchy : List Folder → Hierarchy
unfolding create_nodes link_nodes
build_folder_hierarchy folders =
    link_nodes folders (record { objects = create_nodes folders empty; roots = [] })

-- The folders without a parent.
unfoldable pub without_parent : List Folder → List Folder
without_parent [] = []
without_parent (f ∷ fs) =
    let rest = without_parent fs in if truthy? f.parent then rest else f ∷ rest

abbrev pub ids_of : List Folder → List String
ids_of fs = map (λ (f : Folder). f.id) fs

-- The children of an object; none if it is not there.
abbrev pub children_in : Option FolderNode → Option (List String)
children_in none = none
children_in (some n) = some n.children

children_at : String → Objects → Option (List String)
children_at id os = children_in (get_node id os)

appended : Option (List String) → String → Option (List String)
appended none c = none
appended (some cs) c = some (cs ++ c ∷ [])

push_child-at :
    (p q c : String) (os : Objects)
    → children_at q (push_child p c os)
      ≡ (if str_eq p q then appended (children_at q os) c else children_at q os)
unfolding children_at push_child get_node appended
push_child-at p q c empty = ground arith
push_child-at p q c (entry k n os) =
    ground (arith, push_child-at p q c os, eq_iff k p, eq_iff k q, eq_iff p q)

place-children :
    (p : String) (f : Folder) (h : Hierarchy)
    → truthy p ≡ true
    → children_at p (place f h).objects ≡ (
        if is_child_of p f
        then appended (children_at p h.objects) f.id
        else children_at p h.objects)
place-children p f h t = go f.parent refl
  where
    go :
        (q : Option String)
        → f.parent ≡ q
        → children_at p (place f h).objects ≡ (
            if is_child_of p f
            then appended (children_at p h.objects) f.id
            else children_at p h.objects)
    go none e = ground (arith, e)
    go (some q) e = ground (arith, e, push_child-at q p f.id h.objects, eq_iff q p)

-- What the second pass adds to the children of an object, and to the roots.
link_nodes-children :
    (p : String) (cs : List String) (fs : List Folder) (h : Hierarchy)
    → truthy p ≡ true
    → children_at p h.objects ≡ some cs
    → children_at p (link_nodes fs h).objects ≡ some (cs ++ ids_of (children_of p fs))
unfolding link_nodes children_of appended
link_nodes-children p cs [] h t e = e ∙ ap some (sym (append-nil cs))
link_nodes-children p cs (f ∷ fs) h t e = elim (Bool-cases (is_child_of p f)) [
  | inl k ↦
      link_nodes-children p (cs ++ f.id ∷ []) fs (place f h) t
        (ground (arith, place-children p f h t, k, e))
      ∙ rw k (ap some (append_assoc cs (f.id ∷ []) (ids_of (children_of p fs))))
  | inr k ↦
      link_nodes-children p cs fs (place f h) t (ground (arith, place-children p f h t, k, e))
      ∙ rw k refl
]

place-roots :
    (f : Folder) (h : Hierarchy)
    → (place f h).roots ≡ (if truthy? f.parent then h.roots else h.roots ++ f.id ∷ [])
place-roots f h = ground arith

link_nodes-roots :
    (fs : List Folder) (h : Hierarchy)
    → (link_nodes fs h).roots ≡ h.roots ++ ids_of (without_parent fs)
unfolding link_nodes without_parent
link_nodes-roots [] h = sym (append-nil h.roots)
link_nodes-roots (f ∷ fs) h = elim (Bool-cases (truthy? f.parent)) [
  | inl k ↦
      let same : (place f h).roots ≡ h.roots = ground (arith, place-roots f h, k) in
      link_nodes-roots fs (place f h) ∙ ap (λ rs. rs ++ ids_of (without_parent fs)) same ∙ rw k refl
  | inr k ↦
      let more : (place f h).roots ≡ h.roots ++ f.id ∷ [] = ground (arith, place-roots f h, k) in
      link_nodes-roots fs (place f h)
      ∙ ap (λ rs. rs ++ ids_of (without_parent fs)) more
      ∙ rw k (append_assoc h.roots (f.id ∷ []) (ids_of (without_parent fs)))
]

-- The first pass makes an object without children for each id.
set_node-at :
    (p id : String) (f : Folder) (os : Objects)
    → children_at p (set_node id (record { folder = f; children = [] }) os)
      ≡ (if str_eq id p then some [] else children_at p os)
unfolding children_at set_node get_node
set_node-at p id f empty = ground arith
set_node-at p id f (entry k n os) =
    ground (arith, set_node-at p id f os, eq_iff k p, eq_iff k id, eq_iff id p)

create_nodes-keeps :
    (p : String) (fs : List Folder) (os : Objects)
    → children_at p os ≡ some []
    → children_at p (create_nodes fs os) ≡ some []
unfolding create_nodes
create_nodes-keeps p [] os h = h
create_nodes-keeps p (f ∷ fs) os h =
    create_nodes-keeps p fs (set_node f.id (record { folder = f; children = [] }) os)
      (ground (arith, set_node-at p f.id f os, h))

create_nodes-at :
    (p : String) (fs : List Folder) (os : Objects)
    → has_id p (ids_of fs) ≡ true
    → children_at p (create_nodes fs os) ≡ some []
unfolding create_nodes has_id
create_nodes-at p [] os h = cc
create_nodes-at p (f ∷ fs) os h = elim (Bool-cases (str_eq f.id p)) [
  | inl k ↦
      create_nodes-keeps p fs (set_node f.id (record { folder = f; children = [] }) os)
        (ground (arith, set_node-at p f.id f os, k))
  | inr k ↦
      create_nodes-at p fs (set_node f.id (record { folder = f; children = [] }) os)
        (ground (arith, h, k))
]

-- In the hierarchy the children of a folder of the list, if its id is not empty, are the folders
-- whose parent it is, in their order, and the roots are the folders without a parent, in theirs.
pub hierarchy_lists :
    (p : String) (fs : List Folder)
    → truthy p ≡ true
    → has_id p (ids_of fs) ≡ true
    → (children_in (get_node p (build_folder_hierarchy fs).objects)
        ≡ some (ids_of (children_of p fs)))
      × ((build_folder_hierarchy fs).roots ≡ ids_of (without_parent fs))
unfolding build_folder_hierarchy children_at
hierarchy_lists p fs t h = (
  link_nodes-children p [] fs (record { objects = create_nodes fs empty; roots = [] }) t
      (create_nodes-at p fs empty h),
  link_nodes-roots fs (record { objects = create_nodes fs empty; roots = [] }),
)
