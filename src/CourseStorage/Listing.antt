-- ===== src/CourseStorage/Listing.antt =====
-- listCourses of lib/storage/courseStorage.ts: the entries of the index that meet the filters, the newest
-- first.
use mirai_app.Prelude.{
  ℕ, ◌-◌, ◌≤◌, ◌≡◌, refl, sym, ap, ◌∙◌, String, Bool, true, false, ◌&&◌, ◌||◌, Option, none, some,
  List, [], ◌∷◌, str_eq, leb, if◌then◌else◌, arith, All, Bool-cases, inl, inr,
}
use mathlib.Core.Path.{subst}
use mathlib.Core.List.{Perm}
use mirai_app.Prelude.Js.{Outcome, done, truthy, is_nonempty}
use mirai_app.Prelude.Sort.{sort_by, IsSorted, sort_by-perm, sort_by-IsSorted, All-sort_by}
use mirai_app.CourseStorage.{CourseStatus, draft, published, LibraryEntry, Library}
use mirai_app.CourseStorage.Storage.{CourseFiles, Defaults, IsApart}
use mirai_app.CourseStorage.Index.{and_then, load_library}
use mirai_app.CourseStorage.Indexed.{and_then-done, IsIndexed, load_library-loaded}

pub record Filters : Type 0 where
  pub status : Option CourseStatus
  pub folder : Option String
  pub tags : Option (List String)

abbrev same_status : CourseStatus → CourseStatus → Bool
same_status draft draft = true
same_status published published = true
same_status _ _ = false

-- `c.tags.includes(tag)`, and `some` over the tags of the filter.
unfoldable pub has_tag : String → List String → Bool
has_tag tag [] = false
has_tag tag (t ∷ ts) = str_eq t tag || has_tag tag ts

unfoldable pub has_some_tag : List String → LibraryEntry → Bool
unfolding has_tag
has_some_tag [] e = false
has_some_tag (tag ∷ tags) e = has_tag tag e.tags || has_some_tag tags e

unfoldable pub select : (LibraryEntry → Bool) → List LibraryEntry → List LibraryEntry
select test [] = []
select test (e ∷ es) = let rest = select test es in if test e then e ∷ rest else rest

-- The three filters, each of which is left out if it is not given or empty.
abbrev by_status : Option CourseStatus → List LibraryEntry → List LibraryEntry
by_status none es = es
by_status (some s) es = select (λ e. same_status e.status s) es

abbrev by_folder : Option String → List LibraryEntry → List LibraryEntry
by_folder none es = es
by_folder (some f) es = if truthy f then select (λ e. str_eq e.folder f) es else es

abbrev by_tags : Option (List String) → List LibraryEntry → List LibraryEntry
by_tags none es = es
by_tags (some ts) es = if is_nonempty ts then select (λ e. has_some_tag ts e) es else es

unfoldable pub apply_filters : Option Filters → List LibraryEntry → List LibraryEntry
unfolding select has_some_tag
apply_filters none es = es
apply_filters (some f) es = by_tags f.tags (by_folder f.folder (by_status f.status es))

-- The sort compares the ages of the entries, which are counted from the latest date.
unfoldable pub latest : List LibraryEntry → ℕ
latest [] = 0
latest (e ∷ es) = let rest = latest es in if leb e.modified_at rest then rest else e.modified_at

abbrev age : List LibraryEntry → LibraryEntry → ℕ
age es e = latest es - e.modified_at

unfoldable pub newest_first : List LibraryEntry → List LibraryEntry
unfolding latest sort_by
newest_first es = sort_by (age es) es

-- Whether an entry meets each of the filters, and all.
abbrev status_ok : Option CourseStatus → LibraryEntry → Bool
status_ok none e = true
status_ok (some s) e = same_status e.status s

abbrev folder_ok : Option String → LibraryEntry → Bool
folder_ok none e = true
folder_ok (some f) e = if truthy f then str_eq e.folder f else true

abbrev tags_ok : Option (List String) → LibraryEntry → Bool
tags_ok none e = true
tags_ok (some ts) e = if is_nonempty ts then has_some_tag ts e else true

unfoldable pub meets : Option Filters → LibraryEntry → Bool
unfolding has_some_tag
meets none e = true
meets (some f) e = (status_ok f.status e && folder_ok f.folder e) && tags_ok f.tags e

abbrev pub IsNewestFirst : List LibraryEntry → Type 0
IsNewestFirst [] = Unit
IsNewestFirst (e ∷ es) = All (λ x. x.modified_at ≤ e.modified_at) es × IsNewestFirst es

select_all : (es : List LibraryEntry) → select (λ e. true) es ≡ es
unfolding select
select_all [] = refl
select_all (e ∷ es) = ground (arith, select_all es)

select_if :
    (b : Bool) (p : LibraryEntry → Bool) (es : List LibraryEntry)
    → (if b then select p es else es) ≡ select (λ e. if b then p e else true) es
select_if true p es = refl
select_if false p es = sym (select_all es)

select-select :
    (p q : LibraryEntry → Bool) (es : List LibraryEntry)
    → select q (select p es) ≡ select (λ e. p e && q e) es
unfolding select
select-select p q [] = refl
select-select p q (e ∷ es) = elim (Bool-cases (p e)) [
  | inl h ↦ rw h (ap (λ rest. if q e then e ∷ rest else rest) (select-select p q es))
  | inr h ↦ rw h (select-select p q es)
]

by_status-select :
    (s : Option CourseStatus) (es : List LibraryEntry) → by_status s es ≡ select (status_ok s) es
by_status-select none es = sym (select_all es)
by_status-select (some s) es = refl

by_folder-select :
    (f : Option String) (es : List LibraryEntry) → by_folder f es ≡ select (folder_ok f) es
by_folder-select none es = sym (select_all es)
by_folder-select (some f) es = select_if (truthy f) (λ e. str_eq e.folder f) es

by_tags-select :
    (ts : Option (List String)) (es : List LibraryEntry) → by_tags ts es ≡ select (tags_ok ts) es
by_tags-select none es = sym (select_all es)
by_tags-select (some ts) es = select_if (is_nonempty ts) (has_some_tag ts) es

apply_filters-select :
    (f : Option Filters) (es : List LibraryEntry) → apply_filters f es ≡ select (meets f) es
unfolding apply_filters meets
apply_filters-select none es = sym (select_all es)
apply_filters-select (some f) es =
    let both : by_folder f.folder (by_status f.status es)
        ≡ select (λ e. status_ok f.status e && folder_ok f.folder e) es =
      by_folder-select f.folder (by_status f.status es)
      ∙ ap (select (folder_ok f.folder)) (by_status-select f.status es)
      ∙ select-select (status_ok f.status) (folder_ok f.folder) es in
    by_tags-select f.tags (by_folder f.folder (by_status f.status es))
    ∙ ap (select (tags_ok f.tags)) both
    ∙ select-select (λ e. status_ok f.status e && folder_ok f.folder e) (tags_ok f.tags) es

All-weaken :
    (a b : ℕ) (es : List LibraryEntry)
    → a ≤ b
    → All (λ x. x.modified_at ≤ a) es
    → All (λ x. x.modified_at ≤ b) es
All-weaken a b [] l h = tt
All-weaken a b (e ∷ es) l h = (omega arith, All-weaken a b es l h.1)

latest-bounds : (es : List LibraryEntry) → All (λ x. x.modified_at ≤ latest es) es
unfolding latest
latest-bounds [] = tt
latest-bounds (e ∷ es) =
    (ground arith, All-weaken (latest es) (latest (e ∷ es)) es (ground arith) (latest-bounds es))

-- In a list that is sorted by the ages, no entry is newer than one before it.
younger :
    (last : ℕ) (e : LibraryEntry) (es : List LibraryEntry)
    → All (λ x. x.modified_at ≤ last) es
    → e.modified_at ≤ last
    → All (λ x. last - e.modified_at ≤ last - x.modified_at) es
    → All (λ x. x.modified_at ≤ e.modified_at) es
younger last e [] b l h = tt
younger last e (x ∷ es) b l h = (ground (arith, b.0, l, h.0), younger last e es b.1 l h.1)

sorted-IsNewestFirst :
    (last : ℕ) (es : List LibraryEntry)
    → All (λ x. x.modified_at ≤ last) es
    → IsSorted (λ (x : LibraryEntry). last - x.modified_at) es
    → IsNewestFirst es
sorted-IsNewestFirst last [] b h = tt
sorted-IsNewestFirst last (e ∷ es) b h =
    (younger last e es b.1 b.0 h.0, sorted-IsNewestFirst last es b.1 h.1)

pub newest_first-IsNewestFirst : (es : List LibraryEntry) → IsNewestFirst (newest_first es)
unfolding newest_first
newest_first-IsNewestFirst es =
    sorted-IsNewestFirst (latest es) (sort_by (age es) es)
      (All-sort_by (age es) (λ x. x.modified_at ≤ latest es) es (latest-bounds es))
      (sort_by-IsSorted (age es) es)

pub newest_first-perm : (es : List LibraryEntry) → Perm (newest_first es) es
unfolding newest_first
newest_first-perm es = sort_by-perm (age es) es

module _ {S B : Type 0} (files : CourseFiles S B) (defaults : Defaults B) where
  -- `listCourses`.
  unfoldable pub list_courses : Option Filters → S → Outcome (List LibraryEntry) × S
  unfolding load_library apply_filters newest_first
  list_courses filters s =
      and_then (load_library files defaults s)
        (λ l s1. (done (newest_first (apply_filters filters l.courses)), s1))

  -- Over an adapter whose files are apart, with an index that can be read, what is listed are the entries
  -- of the index that meet the filters, the newest first; and the index stays as it was.
  pub list_courses-lists :
      (laws : IsApart files) (f : Option Filters) (l : Library) (s s' : S) (es : List LibraryEntry)
      → IsIndexed files defaults laws (done l) s
      → list_courses f s ≡ (done es, s')
      → IsNewestFirst es
        × Perm es (select (meets f) l.courses)
        × IsIndexed files defaults laws (done l) s'
  unfolding list_courses
  list_courses-lists laws f l s s' es i h =
      let s1 = (load_library files defaults s).1 in
      let (m, e1, h1) = and_then-done _ _ h in
      let (em, i1) = load_library-loaded files defaults laws (done l) s m s1 i e1 in
      let found = apply_filters f m.courses in
      let listed : newest_first found ≡ es = ground (arith, h1) in
      let same : s1 ≡ s' = ground (arith, h1) in
      let selected : found ≡ select (meets f) l.courses =
        apply_filters-select f m.courses ∙ ap (λ (k : Library). select (meets f) k.courses) em in
      (
        subst IsNewestFirst listed (newest_first-IsNewestFirst found),
        subst (λ xs. Perm xs (select (meets f) l.courses)) listed
            (subst (λ ys. Perm (newest_first found) ys) selected (newest_first-perm found)),
        subst (λ t. IsIndexed files defaults laws (done l) t) same i1,
      )
