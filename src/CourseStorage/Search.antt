-- ===== src/CourseStorage/Search.antt =====
-- The search for the courses of a folder ends in a library without circles, and finds all of them.
use mathlib.Core.List.{Memᴰ}
use mathlib.Core.List.Memᴰ.{head, tail}
use mirai_app.Prelude.{
  ℕ, zero, suc, ◌+◌, ◌≤◌, ◌<◌, ◌≡◌, ◌↔◌, ◌⊎◌, refl, String, Bool, true, false, Option, none, some,
  List, [], ◌∷◌, arith, All, All-mono, is_some, str_eq, eq_iff, Bool-cases, Option-cases, inl, inr,
  if◌then◌else◌,
}
use mirai_app.CourseStorage.{
  Folder, LibraryEntry, Library, is_child_of, children_of, add_each, add_subfolders, has_id,
  courses_in, get_courses_by_folder,
}
use mirai_app.CourseStorage.Subfolders.{
  IsBelow, is_child_of-eq, add_subfolders-IsBelow, IsBelow-add_subfolders,
}

-- A depth that a folder's parent has less of, and that is bounded: there are no circles.
abbrev pub IsRankedFolder : (String → ℕ) → ℕ → Folder → Type 0
IsRankedFolder depth bound f =
    (depth f.id ≤ bound) × elim f.parent [ none ↦ Unit | some p ↦ depth p < depth f.id ]

abbrev pub IsRanked : (String → ℕ) → ℕ → List Folder → Type 0
IsRanked depth bound fs = All (λ f. IsRankedFolder depth bound f) fs

children_of-deeper :
    (depth : String → ℕ) (bound : ℕ) (p : String) (fs : List Folder)
    → IsRanked depth bound fs
    → All (λ f. (depth p < depth f.id) × (depth f.id ≤ bound)) (children_of p fs)
unfolding children_of
children_of-deeper depth bound p [] r = tt
children_of-deeper depth bound p (f ∷ fs) r = elim (Bool-cases (is_child_of p f)) [
  | inl e ↦
      let h = is_child_of-eq p f e in
      let (b, l) = r.0 in
      rw e ((ground (arith, h, r.0), b), children_of-deeper depth bound p fs r.1)
  | inr e ↦ rw e (children_of-deeper depth bound p fs r.1)
]

add_each-ends :
    (below : String → Option (List String)) (cs : List Folder)
    → All (λ f. is_some (below f.id) ≡ true) cs
    → is_some (add_each below cs) ≡ true
unfolding add_each
add_each-ends below [] h = refl
add_each-ends below (c ∷ cs) h = ground (arith, add_each-ends below cs h.1)

-- Fuel for the depths that are left, and one more, is enough.
add_subfolders-ends :
    (depth : String → ℕ) (bound : ℕ) (fs : List Folder)
    → IsRanked depth bound fs
    → (n : ℕ) (p : String) → bound < depth p + n
    → is_some (add_subfolders (suc n) fs p) ≡ true
unfolding add_subfolders
add_subfolders-ends depth bound fs r zero p h =
    add_each-ends (λ q. add_subfolders 0 fs q) (children_of p fs)
      (All-mono (λ f. (depth p < depth f.id) × (depth f.id ≤ bound))
        (λ f. is_some (add_subfolders 0 fs f.id) ≡ true) (children_of p fs)
        (λ f d. absurd (omega (arith, h, d.0, d.1))) (children_of-deeper depth bound p fs r))
add_subfolders-ends depth bound fs r (suc m) p h =
    add_each-ends (λ q. add_subfolders (suc m) fs q) (children_of p fs)
      (All-mono (λ f. (depth p < depth f.id) × (depth f.id ≤ bound))
        (λ f. is_some (add_subfolders (suc m) fs f.id) ≡ true) (children_of p fs)
        (λ f d. add_subfolders-ends depth bound fs r m f.id (omega (arith, h, d.0)))
        (children_of-deeper depth bound p fs r))

kept :
    (c d : LibraryEntry) (rest : List LibraryEntry) (b : Bool)
    → Memᴰ c (if b then d ∷ rest else rest)
    → ((c ≡ d) × (b ≡ true)) ⊎ Memᴰ c rest
kept c d rest true (head e) = inl (e, refl)
kept c d rest true (tail m) = inr m
kept c d rest false m = inr m

courses_in-mem :
    (c : LibraryEntry) (ids : List String) (cs : List LibraryEntry)
    → Memᴰ c (courses_in ids cs)
    → Memᴰ c cs × (has_id c.folder ids ≡ true)
unfolding courses_in
courses_in-mem c ids [] m = elim m [ ]
courses_in-mem c ids (d ∷ cs) m = elim (kept c d (courses_in ids cs) (has_id d.folder ids) m) [
  | inl (e, b) ↦ (head e, ground (arith, e, b))
  | inr m' ↦ let (a, b) = courses_in-mem c ids cs m' in (tail a, b)
]

mem-courses_in :
    (c : LibraryEntry) (ids : List String) (cs : List LibraryEntry)
    → Memᴰ c cs
    → has_id c.folder ids ≡ true
    → Memᴰ c (courses_in ids cs)
unfolding courses_in
mem-courses_in c ids [] m h = elim m [ ]
mem-courses_in c ids (d ∷ cs) (head same) h =
    let e : has_id d.folder ids ≡ true = ground (arith, same) in rw e (head same)
mem-courses_in c ids (d ∷ cs) (tail m) h = elim (Bool-cases (has_id d.folder ids)) [
  | inl e ↦ rw e (tail (mem-courses_in c ids cs m h))
  | inr e ↦ rw e (mem-courses_in c ids cs m h)
]

-- A course of the folder itself or of a folder below it.
abbrev pub IsInside : List Folder → String → LibraryEntry → Type 0
IsInside fs folder_id c = (c.folder ≡ folder_id) ⊎ IsBelow fs folder_id c.folder

-- In a library without circles the search for the courses of a folder ends, with fuel for the depths
-- and two more, and finds a course exactly if it is in the library and in the folder or in a folder
-- below it.
pub courses_by_folder_iff :
    (depth : String → ℕ) (bound : ℕ) (l : Library) (folder_id : String) (c : LibraryEntry)
    → IsRanked depth bound l.folders
    → (found : List LibraryEntry) × (get_courses_by_folder (suc (suc bound)) l folder_id true
        ≡ some found)
      × (Memᴰ c found ↔ (Memᴰ c l.courses × IsInside l.folders folder_id c))
unfolding get_courses_by_folder has_id
courses_by_folder_iff depth bound l folder_id c r =
    elim (Option-cases (add_subfolders (suc (suc bound)) l.folders folder_id)) [
      | inl e ↦
          cc (add_subfolders-ends depth bound l.folders r (suc bound) folder_id (omega arith), e)
      | inr (ids, e) ↦
          (courses_in (folder_id ∷ ids) l.courses, rw e refl, (sound ids e, complete ids e))
    ]
  where
    sound :
        (ids : List String)
        → add_subfolders (suc (suc bound)) l.folders folder_id ≡ some ids
        → Memᴰ c (courses_in (folder_id ∷ ids) l.courses)
        → Memᴰ c l.courses × IsInside l.folders folder_id c
    sound ids e m =
        let (m', h) = courses_in-mem c (folder_id ∷ ids) l.courses m in
        elim (Bool-cases (str_eq folder_id c.folder)) [
          | inl same ↦ (m', inl (ground (arith, same, eq_iff folder_id c.folder)))
          | inr other ↦ (
            m',
            inr (
                add_subfolders-IsBelow (suc (suc bound)) l.folders folder_id c.folder ids e
                  (ground (arith, h, other))),
          )
        ]

    complete :
        (ids : List String)
        → add_subfolders (suc (suc bound)) l.folders folder_id ≡ some ids
        → Memᴰ c l.courses × IsInside l.folders folder_id c
        → Memᴰ c (courses_in (folder_id ∷ ids) l.courses)
    complete ids e (m, inl same) =
        mem-courses_in c (folder_id ∷ ids) l.courses m
          (ground (arith, same, eq_iff folder_id c.folder))
    complete ids e (m, inr b) =
        let h = IsBelow-add_subfolders (suc (suc bound)) l.folders folder_id c.folder ids b e in
        mem-courses_in c (folder_id ∷ ids) l.courses m (ground (arith, h))
