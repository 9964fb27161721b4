-- ===== src/CourseStorage/Resolution.antt =====
-- getFolderIdFromPath: what the folder that is found has to do with the text.
use mathlib.Core.List.{Memᴰ}
use mathlib.Core.List.Memᴰ.{head, tail}
use mathlib.Core.Path.{subst}
use mathlib.Core.List.{append_assoc, append-nil, map-append}
use mirai_app.Prelude.{
  ℕ, ◌≡◌, ◌⊎◌, sym, ap, ◌∙◌, String, true, false, not, ◌&&◌, none, some, List, [], ◌∷◌, ◌++◌, map,
  arith, All, eq_iff, Bool-cases, Option-cases, inl, inr,
}
use mirai_app.Prelude.Js.{truthy?, truthy, units, same_text-eq}
use mirai_app.CourseStorage.{
  Folder, Library, find_folder, parent_folder, children_of, is_named, find_name, find_root,
  navigate, path_match, split_slash, get_folder_id_from_path,
}
use mirai_app.CourseStorage.Subfolders.{IsChild, children_of-IsChild}
use mirai_app.CourseStorage.Paths.{IsTrail, root, under}

-- Every folder has an id, by which it is found.
abbrev pub IsIndexed : List Folder → Type 0
IsIndexed fs = All (λ (f : Folder). (truthy f.id ≡ true) × (find_folder f.id fs ≡ some f)) fs

is_named-eq : (part : List ℕ) (f : Folder) → is_named part f ≡ true → units f.name ≡ part
unfolding is_named
is_named-eq part f h = same_text-eq (units f.name) part h

find_name-All :
    (P : Folder → Type 0) (part : List ℕ) (fs : List Folder) (f : Folder)
    → All P fs
    → find_name part fs ≡ some f
    → P f × (units f.name ≡ part)
unfolding find_name
find_name-All P part [] f a h = cc
find_name-All P part (g ∷ fs) f a h = elim (Bool-cases (is_named part g)) [
  | inl e ↦
      let same : g ≡ f = ground (arith, e, h) in
      (subst P same a.0, ground (arith, same, is_named-eq part g e))
  | inr e ↦ find_name-All P part fs f a.1 (ground (arith, e, h))
]

find_root-lem :
    (part : List ℕ) (fs : List Folder) (f : Folder)
    → find_root part fs ≡ some f
    → (truthy? f.parent ≡ false) × (units f.name ≡ part)
unfolding find_root
find_root-lem part [] f h = cc
find_root-lem part (g ∷ fs) f h = ground (arith, find_root-lem part fs f, is_named-eq part g)

All-mem : (P : Folder → Type 0) (fs : List Folder) (f : Folder) → Memᴰ f fs → All P fs → P f
All-mem P [] f m a = elim m [ ]
All-mem P (g ∷ fs) f (head e) a = subst P (sym e) a.0
All-mem P (g ∷ fs) f (tail m) a = All-mem P fs f m a.1

-- The folder of an id that is there, as the parent of another.
parent_folder-child :
    (fs : List Folder) (p f : Folder)
    → truthy p.id ≡ true
    → find_folder p.id fs ≡ some p
    → f.parent ≡ some p.id
    → parent_folder fs f ≡ some p
unfolding parent_folder
parent_folder-child fs p f t found e = ground (arith, t, found, e)

parent_folder-root :
    (fs : List Folder) (f : Folder) → truthy? f.parent ≡ false → parent_folder fs f ≡ none
unfolding parent_folder
parent_folder-root fs f h = ground (arith, h)

-- Navigating from a folder adds the parts to its names.
navigate-IsTrail :
    (fs : List Folder) (current f : Folder) (names : List String) (parts : List (List ℕ))
    → IsIndexed fs
    → (truthy current.id ≡ true) × (find_folder current.id fs ≡ some current)
    → IsTrail fs current names
    → navigate fs current parts ≡ some f
    → (all : List String) × IsTrail fs f all × (map units all ≡ map units names ++ parts)
unfolding navigate
navigate-IsTrail fs current f names [] x i t h =
    let same : current ≡ f = ground (arith, h) in
    (names, subst (λ g. IsTrail fs g names) same t, sym (append-nil (map units names)))
navigate-IsTrail fs current f names (part ∷ parts) x i t h =
    elim (Option-cases (find_name part (children_of current.id fs))) [
      | inl e ↦ cc (e, h)
      | inr (g, e) ↦
          let ((m, parent), named) =
            find_name-All (λ (k : Folder). IsChild fs current.id k) part (children_of current.id fs)
              g (children_of-IsChild current.id fs fs (λ k l. l)) e in
          let p = parent_folder-child fs current g i.0 i.1 parent in
          let (all, t', split) =
            navigate-IsTrail fs g f (names ++ g.name ∷ []) parts x
              (All-mem (λ (k : Folder). (truthy k.id ≡ true) × (find_folder k.id fs ≡ some k)) fs g
                m x)
              (under g current p t) (ground (arith, e, h)) in
          (all, t', split ∙ extended g.name part named)
    ]
  where
    extended :
        (name : String) (part : List ℕ)
        → units name ≡ part
        → map units (names ++ name ∷ []) ++ parts ≡ map units names ++ part ∷ parts
    extended name part named =
        ap (λ l. l ++ parts) (map-append units names (name ∷ []))
        ∙ append_assoc (map units names) (units name ∷ []) parts
        ∙ ap (λ u. map units names ++ u ∷ parts) named

find_root-mem :
    (part : List ℕ) (fs : List Folder) (f : Folder) → find_root part fs ≡ some f → Memᴰ f fs
unfolding find_root
find_root-mem part [] f h = cc
find_root-mem part (g ∷ fs) f h = elim (Bool-cases (is_named part g && not (truthy? g.parent))) [
  | inl e ↦ head (sym (ground (arith, e, h)))
  | inr e ↦ tail (find_root-mem part fs f (ground (arith, e, h)))
]

-- A folder that a path leads to lies at that path.
path_match-IsTrail :
    (fs : List Folder) (parts : List (List ℕ)) (f : Folder)
    → IsIndexed fs
    → path_match fs parts ≡ some f
    → (names : List String) × IsTrail fs f names × (map units names ≡ parts)
unfolding path_match
path_match-IsTrail fs [] f x h = cc
path_match-IsTrail fs (part ∷ []) f x h = cc
path_match-IsTrail fs (part ∷ second ∷ parts) f x h = elim (Option-cases (find_root part fs)) [
  | inl e ↦ cc (e, h)
  | inr (r, e) ↦
      let (top, named) = find_root-lem part fs r e in
      let (all, t, split) =
        navigate-IsTrail fs r f (r.name ∷ []) (second ∷ parts) x
          (All-mem (λ (k : Folder). (truthy k.id ≡ true) × (find_folder k.id fs ≡ some k)) fs r
            (find_root-mem part fs r e) x)
          (root r (parent_folder-root fs r top)) (ground (arith, e, h)) in
      (all, t, split ∙ ap (λ u. u ∷ second ∷ parts) named)
]

find_folder-lem :
    (id : String) (fs : List Folder) (f : Folder) → find_folder id fs ≡ some f → f.id ≡ id
unfolding find_folder
find_folder-lem id [] f h = cc
find_folder-lem id (g ∷ fs) f h = ground (arith, find_folder-lem id fs f, eq_iff g.id id)

-- What a text may mean: an id, a name, or the names on the path of a folder.
abbrev pub IsMeant : List Folder → String → Folder → Type 0
IsMeant fs s f =
    (f.id ≡ s)
    ⊎ ((units f.name ≡ units s)
        ⊎ ((names : List String) × IsTrail fs f names × (map units names ≡ split_slash (units s))))

-- Where every folder has an id by which it is found, the id that a text is resolved to is one of a
-- folder that the text means: by its id, by its name, or by the names from the root to it.
pub get_folder_id_from_path-IsMeant :
    (l : Library) (s id : String)
    → IsIndexed l.folders
    → get_folder_id_from_path l s ≡ some id
    → (f : Folder) × (f.id ≡ id) × IsMeant l.folders s f
unfolding get_folder_id_from_path
get_folder_id_from_path-IsMeant l s id x h = elim (Option-cases (find_folder s l.folders)) [
  | inr (f, e) ↦ (f, ground (arith, e, h), inl (find_folder-lem s l.folders f e))
  | inl e ↦ elim (Option-cases (find_name (units s) l.folders)) [
    | inr (f, e') ↦ (
      f,
      ground (arith, e, e', h),
      inr (inl (find_name-All (λ k. Unit) (units s) l.folders f (all l.folders) e').1),
    )
    | inl e' ↦ elim (Option-cases (path_match l.folders (split_slash (units s)))) [
      | inr (f, e3) ↦ (
        f,
        ground (arith, e, e', e3, h),
        inr (inr (path_match-IsTrail l.folders (split_slash (units s)) f x e3)),
      )
      | inl e3 ↦ cc (e, e', e3, h)
    ]
  ]
]
  where
    all : (fs : List Folder) → All (λ (k : Folder). Unit) fs
    all [] = tt
    all (f ∷ fs) = (tt, all fs)
