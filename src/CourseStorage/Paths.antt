-- ===== src/CourseStorage/Paths.antt =====
-- getFolderPath: the loop ends in a library without circles, with the names from the root on.
use mirai_app.Prelude.{
  ℕ, zero, suc, ◌<◌, ◌≡◌, ◌≢◌, ◌⊎◌, refl, sym, ap, String, none, some, List, [], ◌∷◌, ◌++◌, arith,
  str_eq, eq_iff, Bool-cases, Option-cases, inl, inr,
}
use mathlib.Core.Path.{subst}
use mathlib.Core.List.{Memᴰ, append_assoc, append-nil}
use mirai_app.Prelude.Js.{units}
use mirai_app.CourseStorage.{
  Folder, Library, find_folder, parent_folder, climb, join, get_folder_path,
}
use mirai_app.CourseStorage.Search.{IsRanked, IsRankedFolder}

-- The names from the root to a folder: a folder without a parent is a root, as is one whose parent
-- is not in the library.
pub data IsTrail (fs : List Folder) : Folder → List String → Type 0 where
  root : (f : Folder) → parent_folder fs f ≡ none → IsTrail fs f (f.name ∷ [])
  under :
      {names : List String} (f g : Folder)
      → parent_folder fs f ≡ some g
      → IsTrail fs g names
      → IsTrail fs f (names ++ f.name ∷ [])

find_folder-ranked :
    (depth : String → ℕ) (bound : ℕ) (id : String) (fs : List Folder) (f : Folder)
    → IsRanked depth bound fs
    → find_folder id fs ≡ some f
    → (f.id ≡ id) × IsRankedFolder depth bound f
unfolding find_folder
find_folder-ranked depth bound id [] f r e = cc
find_folder-ranked depth bound id (g ∷ fs) f r e = elim (Bool-cases (str_eq g.id id)) [
  | inl h ↦
      let same : g ≡ f = ground (arith, e, h) in
      subst (λ (x : Folder). (x.id ≡ id) × IsRankedFolder depth bound x) same
        (ground (arith, h, eq_iff g.id id), r.0)
  | inr h ↦ find_folder-ranked depth bound id fs f r.1 (ground (arith, e, h))
]

-- The parent that is found is a folder of the library with less depth.
parent_folder-ranked :
    (depth : String → ℕ) (bound : ℕ) (fs : List Folder) (f g : Folder)
    → IsRanked depth bound fs
    → IsRankedFolder depth bound f
    → parent_folder fs f ≡ some g
    → (depth g.id < depth f.id) × IsRankedFolder depth bound g
unfolding parent_folder
parent_folder-ranked depth bound fs f g r rf e = elim (Option-cases f.parent) [
  | inl n ↦ cc (n, e)
  | inr (p, h) ↦
      let found : find_folder p fs ≡ some g = ground (arith, h, e) in
      let (same, rg) = find_folder-ranked depth bound p fs g r found in
      (ground (arith, rf.1, h, same), rg)
]

-- The loop puts the path to the current folder, but for its own name, before what it has.
climb-IsTrail :
    (depth : String → ℕ) (bound : ℕ) (fs : List Folder) (n : ℕ) (f : Folder) (rest : List String)
    → IsRanked depth bound fs
    → IsRankedFolder depth bound f
    → depth f.id < n
    → (names : List String) × IsTrail fs f names
      × (climb n fs f (f.name ∷ rest) ≡ some (names ++ rest))
unfolding climb
climb-IsTrail depth bound fs zero f rest r rf h = absurd (omega (arith, h))
climb-IsTrail depth bound fs (suc n) f rest r rf h = elim (Option-cases (parent_folder fs f)) [
  | inl e ↦ (f.name ∷ [], root f e, ground (arith, e))
  | inr (g, e) ↦
      let (l, rg) = parent_folder-ranked depth bound fs f g r rf e in
      let (names, p, c) =
        climb-IsTrail depth bound fs n g (f.name ∷ rest) r rg (omega (arith, h, l)) in
      (
        names ++ f.name ∷ [],
        under f g e p,
        ground (arith, e, c, append_assoc names (f.name ∷ []) rest),
      )
]

-- A folder whose parent is not given or empty, or has an id that no folder has.
abbrev pub NoParent : List Folder → Folder → Type 0
NoParent fs f =
    (f.parent ≡ none)
    ⊎ ((p : String) × (f.parent ≡ some p) × ((p ≡ "") ⊎ ((g : Folder) → Memᴰ g fs → g.id ≢ p)))

-- The path of a folder as a text: its name, behind the path of a folder with its parent's id and a
-- slash.
pub data IsPath (fs : List Folder) : Folder → List ℕ → Type 0 where
  top : (f : Folder) → NoParent fs f → IsPath fs f (units f.name)
  below :
      {path : List ℕ} (f g : Folder)
      → Memᴰ g fs
      → f.parent ≡ some g.id
      → IsPath fs g path
      → IsPath fs f (path ++ 47 ∷ units f.name)

find_folder-Mem :
    (id : String) (fs : List Folder) (f : Folder)
    → find_folder id fs ≡ some f
    → Memᴰ f fs × (f.id ≡ id)
unfolding find_folder
find_folder-Mem id [] f e = cc
find_folder-Mem id (g ∷ fs) f e = elim (Bool-cases (str_eq g.id id)) [
  | inl h ↦
      let same : g ≡ f = ground (arith, e, h) in
      subst (λ (x : Folder). Memᴰ x (g ∷ fs) × (x.id ≡ id)) same
        (Memᴰ.head refl, ground (arith, h, eq_iff g.id id))
  | inr h ↦ let (m, q) = find_folder-Mem id fs f (ground (arith, e, h)) in (Memᴰ.tail m, q)
]

find_folder-none :
    (id : String) (fs : List Folder)
    → find_folder id fs ≡ none
    → (g : Folder) → Memᴰ g fs
    → g.id ≢ id
unfolding find_folder
find_folder-none id [] e g m q = elim m [ ]
find_folder-none id (f ∷ fs) e g (Memᴰ.head same) q =
    let i : f.id ≡ id = ground (arith, same, q) in ground (arith, e, i, eq_iff f.id id)
find_folder-none id (f ∷ fs) e g (Memᴰ.tail m) q = find_folder-none id fs (ground (arith, e)) g m q

-- What parent_folder finds, and when it finds nothing.
parent_folder-none : (fs : List Folder) (f : Folder) → parent_folder fs f ≡ none → NoParent fs f
unfolding parent_folder
parent_folder-none fs f e = elim (Option-cases f.parent) [
  | inl n ↦ inl n
  | inr (p, h) ↦ elim (Bool-cases (str_eq p "")) [
    | inl z ↦ inr (p, h, inl ((eq_iff p "").0 z))
    | inr z ↦ inr (p, h, inr (find_folder-none p fs (ground (arith, e, h, z))))
  ]
]

parent_folder-some :
    (fs : List Folder) (f g : Folder)
    → parent_folder fs f ≡ some g
    → Memᴰ g fs × (f.parent ≡ some g.id)
unfolding parent_folder
parent_folder-some fs f g e = elim (Option-cases f.parent) [
  | inl n ↦ cc (n, e)
  | inr (p, h) ↦
      let (m, same) = find_folder-Mem p fs g (ground (arith, e, h)) in (m, ground (arith, h, same))
]

join-snoc :
    (n : String) (names : List String) (last : String)
    → join ((n ∷ names) ++ last ∷ []) ≡ join (n ∷ names) ++ 47 ∷ units last
unfolding join
join-snoc n [] last = refl
join-snoc n (m ∷ names) last =
    rw (join-snoc m names last)
      (sym (append_assoc (units n) (47 ∷ join (m ∷ names)) (47 ∷ units last)))

-- A trail has a first name, and joined it is the path.
trail-IsPath :
    (fs : List Folder) (f : Folder) (names : List String)
    → IsTrail fs f names
    → (n : String) × (ns : List String) × (names ≡ n ∷ ns) × IsPath fs f (join names)
unfolding join
trail-IsPath fs _ _ (root f e) = (f.name, [], refl, top f (parent_folder-none fs f e))
trail-IsPath fs _ _ (under {names} f g e t) =
    let (n, ns, q, p) = trail-IsPath fs g names t in
    let (m, h) = parent_folder-some fs f g e in
    let joined : join (names ++ f.name ∷ []) ≡ join names ++ 47 ∷ units f.name =
      rw q (join-snoc n ns f.name) in
    (
      n,
      ns ++ f.name ∷ [],
      ap (λ (xs : List String). xs ++ f.name ∷ []) q,
      subst (λ x. IsPath fs f x) (sym joined) (below f g m h p),
    )

-- In a library whose folders have bounded depths that increase from parent to child, with fuel for
-- the bound and one more, the text that is computed for a folder that is found is its path: its
-- name, behind the path of the folder with its parent's id and a slash if there is such a folder.
pub get_folder_path-IsPath :
    (depth : String → ℕ) (bound : ℕ) (l : Library) (id : String) (f : Folder)
    → IsRanked depth bound l.folders
    → find_folder id l.folders ≡ some f
    → (path : List ℕ) × IsPath l.folders f path × (get_folder_path (suc bound) l id ≡ some path)
unfolding get_folder_path
get_folder_path-IsPath depth bound l id f r e =
    let (same, rf) = find_folder-ranked depth bound id l.folders f r e in
    let (names, t, c) =
      climb-IsTrail depth bound l.folders (suc bound) f [] r rf (omega (arith, rf.0)) in
    let (n, ns, q, p) = trail-IsPath l.folders f names t in
    (join names, p, ground (arith, e, c, append-nil names))
