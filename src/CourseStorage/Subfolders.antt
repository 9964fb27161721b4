-- ===== src/CourseStorage/Subfolders.antt =====
-- Which courses lie below a folder, and that the search for them ends in a library without circles.
use mathlib.Core.List.{Memᴰ}
use mathlib.Core.List.Memᴰ.{head, tail}
use mirai_app.Prelude.{
  >>=-eq-some, ℕ, zero, suc, ◌≡◌, ◌⊎◌, refl, sym, String, true, ◌||◌, Option, some, List, [], ◌∷◌,
  ◌++◌, arith, All, eq_iff, Bool-cases, Option-cases, inl, inr,
}
use mirai_app.CourseStorage.{Folder, is_child_of, children_of, add_each, add_subfolders, has_id}

-- A folder below another one: its child, or below its child.
pub data IsBelow (fs : List Folder) : String → String → Type 0 where
  child : {p : String} (f : Folder) → Memᴰ f fs → f.parent ≡ some p → IsBelow fs p f.id
  deeper :
      {p i : String} (f : Folder)
      → Memᴰ f fs
      → f.parent ≡ some p
      → IsBelow fs f.id i
      → IsBelow fs p i

has_id-append :
    (i : String) (xs ys : List String) → has_id i (xs ++ ys) ≡ (has_id i xs || has_id i ys)
unfolding has_id
has_id-append i [] ys = refl
has_id-append i (x ∷ xs) ys = ground (arith, has_id-append i xs ys)

abbrev pub IsChild : List Folder → String → Folder → Type 0
IsChild fs p f = Memᴰ f fs × (f.parent ≡ some p)

pub is_child_of-eq : (p : String) (f : Folder) → is_child_of p f ≡ true → f.parent ≡ some p
is_child_of-eq p f h = elim (Option-cases f.parent) [
  | inl e ↦ ground (arith)
  | inr (q, e) ↦ ground (arith, eq_iff q p)
]

pub children_of-IsChild :
    (p : String) (fs gs : List Folder)
    → ((f : Folder) → Memᴰ f gs → Memᴰ f fs)
    → All (λ f. IsChild fs p f) (children_of p gs)
unfolding children_of
children_of-IsChild p fs [] into = tt
children_of-IsChild p fs (g ∷ gs) into =
    let rest = children_of-IsChild p fs gs (λ f m. into f (tail m)) in
    elim (Bool-cases (is_child_of p g)) [
      | inl e ↦ rw e ((into g (head refl), is_child_of-eq p g e), rest)
      | inr e ↦ rw e rest
    ]

children_of-mem :
    (p : String) (f : Folder) (fs : List Folder)
    → Memᴰ f fs
    → f.parent ≡ some p
    → Memᴰ f (children_of p fs)
unfolding children_of
children_of-mem p f [] m h = elim m [ ]
children_of-mem p f (g ∷ gs) (head e) h =
    let c : is_child_of p g ≡ true = ground (arith, eq_iff p p, e) in rw c (head e)
children_of-mem p f (g ∷ gs) (tail m) h = elim (Bool-cases (is_child_of p g)) [
  | inl e ↦ rw e (tail (children_of-mem p f gs m h))
  | inr e ↦ rw e (children_of-mem p f gs m h)
]

-- What is added is below, if this holds of the recursive calls.
add_each-IsBelow :
    (fs : List Folder) (p i : String) (below : String → Option (List String)) (cs : List Folder)
    (ids : List String)
    → ((q : String) (found : List String)
        → below q ≡ some found
        → has_id i found ≡ true
        → IsBelow fs q i)
    → All (λ f. IsChild fs p f) cs
    → add_each below cs ≡ some ids
    → has_id i ids ≡ true
    → IsBelow fs p i
unfolding add_each has_id
add_each-IsBelow fs p i below [] ids deep c e h = ground arith
add_each-IsBelow fs p i below (f ∷ cs) ids deep c e h =
    let (found, e', k) = >>=-eq-some (below f.id) _ e in
    let (others, e'', k') = >>=-eq-some (add_each below cs) _ k in
    elim (cases found others k') [
      | inl same ↦ rw (sym same) (child f c.0.0 c.0.1)
      | inr (inl in_found) ↦ deeper f c.0.0 c.0.1 (deep f.id found e' in_found)
      | inr (inr in_others) ↦ add_each-IsBelow fs p i below cs others deep c.1 e'' in_others
    ]
  where
    cases :
        (found others : List String)
        → some (f.id ∷ (found ++ others)) ≡ some ids
        → (f.id ≡ i) ⊎ ((has_id i found ≡ true) ⊎ (has_id i others ≡ true))
    cases found others k = ground (arith, has_id-append i found others, eq_iff f.id i)

pub add_subfolders-IsBelow :
    (n : ℕ) (fs : List Folder) (p i : String) (ids : List String)
    → add_subfolders n fs p ≡ some ids
    → has_id i ids ≡ true
    → IsBelow fs p i
unfolding add_subfolders
add_subfolders-IsBelow zero fs p i ids e h = cc
add_subfolders-IsBelow (suc n) fs p i ids e h =
    add_each-IsBelow fs p i (λ q. add_subfolders n fs q) (children_of p fs) ids
      (λ q found. add_subfolders-IsBelow n fs q i found) (children_of-IsChild p fs fs (λ f m. m)) e
      h

-- Every child is visited, and what is found below it is kept.
add_each-covers :
    (i : String) (below : String → Option (List String)) (f : Folder) (cs : List Folder)
    (ids : List String)
    → Memᴰ f cs
    → add_each below cs ≡ some ids
    → (found : List String) × (below f.id ≡ some found)
      × (has_id i (f.id ∷ found) ≡ true → has_id i ids ≡ true)
unfolding add_each has_id
add_each-covers i below f [] ids m e = elim m [ ]
add_each-covers i below f (c ∷ cs) ids (head same) e =
    let (found, e', k) = >>=-eq-some (below c.id) _ e in
    let (others, e'', k') = >>=-eq-some (add_each below cs) _ k in
    (found, rw same e', λ h. ground (arith, same, has_id-append i found others))
add_each-covers i below f (c ∷ cs) ids (tail m) e =
    let (found, e', k) = >>=-eq-some (below c.id) _ e in
    let (others, e'', k') = >>=-eq-some (add_each below cs) _ k in
    let (ids', e3, keep) = add_each-covers i below f cs others m e'' in
    (ids', e3, λ h. ground (arith, keep h, has_id-append i found others))

pub IsBelow-add_subfolders :
    (n : ℕ) (fs : List Folder) (p i : String) (ids : List String)
    → IsBelow fs p i
    → add_subfolders n fs p ≡ some ids
    → has_id i ids ≡ true
unfolding add_subfolders has_id
IsBelow-add_subfolders zero fs p i ids b e = cc
IsBelow-add_subfolders (suc n) fs p i ids (child f m h) e =
    let (found, e', keep) =
      add_each-covers f.id (λ q. add_subfolders n fs q) f (children_of p fs) ids
        (children_of-mem p f fs m h) e in
    keep (ground (arith, eq_iff f.id f.id))
IsBelow-add_subfolders (suc n) fs p i ids (deeper f m h b) e =
    let (found, e', keep) =
      add_each-covers i (λ q. add_subfolders n fs q) f (children_of p fs) ids
        (children_of-mem p f fs m h) e in
    keep (ground (arith, IsBelow-add_subfolders n fs f.id i found b e'))
