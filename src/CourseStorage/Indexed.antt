-- ===== src/CourseStorage/Indexed.antt =====
-- What the operations on courses leave in the index.
use mirai_app.Prelude.{◌≡◌, refl, sym, ℕ, String, true, none, List, [], ◌∷◌, ◌++◌, arith, eq_iff}
use mathlib.Core.Path.{subst}
use mirai_app.Prelude.Js.{Outcome, done, failed, Thrown}
use mirai_app.CourseStorage.{LibraryEntry, Library}
use mirai_app.CourseStorage.Storage.{StoredCourse, PartialCourse, Defaults, CourseFiles, IsApart}
use mirai_app.CourseStorage.Index.{
  and_then, find_entry, without_entry, empty_library, new_course, new_entry, ensure_library,
  ensure_directories, read_or_empty, load_library, resolve_folder, create_course, remove_course,
  delete_course,
}

-- A chain that gives a result went through its first call.
pub and_then-done {ℓ} :
    {A B S : Type ℓ} (r : Outcome A × S) (k : A → S → Outcome B × S) {b : B} {s : S}
    → and_then r k ≡ (done b, s)
    → (a : A) × (r ≡ (done a, r.1)) × (k a r.1 ≡ (done b, s))
unfolding and_then
and_then-done (failed e, t) k h = cc
and_then-done (done a, t) k h = (a, refl, h)

-- What the read of the index stands for.
abbrev pub loaded : ℕ → Outcome Library → Library
loaded now (done l) = l
loaded now (failed e) = empty_library now

-- An index that is saved at a time with a further entry, or without one.
abbrev pub with_entry : ℕ → Library → LibraryEntry → Library
with_entry now l e = record l { last_updated = now; courses = l.courses ++ e ∷ [] }

abbrev pub less_entry : ℕ → Library → String → Library
less_entry now l id = record l { last_updated = now; courses = without_entry id l.courses }

without-fresh :
    (id : String) (e : LibraryEntry) (es : List LibraryEntry)
    → e.id ≡ id
    → find_entry id es ≡ none
    → without_entry id (es ++ e ∷ []) ≡ es
unfolding find_entry without_entry
without-fresh id e [] i f = ground (arith, i, eq_iff e.id id)
without-fresh id e (x ∷ es) i f = ground (arith, f, without-fresh id e es i)

module _ {S B : Type 0} (files : CourseFiles S B) (defaults : Defaults B)
    (laws : IsApart files) where
  -- The index is there, and reads as `o`.
  pub record IsIndexed (o : Outcome Library) (s : S) : Type 0 where
    pub there : files.library_exists s ≡ done true
    pub reads : files.read_library s ≡ o

  ensured :
      (o : Outcome Library) (s : S)
      → IsIndexed o s
      → IsIndexed o (ensure_directories files defaults s).1
  unfolding ensure_directories ensure_library and_then
  ensured o s i = ground (
    arith,
    i,
    laws.ensure-keeps "courses" s,
    laws.ensure-keeps "exports" (files.ensure_directory "courses" s).1,
  )

  load_library-IsIndexed :
      (o : Outcome Library) (s : S) → IsIndexed o s → IsIndexed o (load_library files defaults s).1
  unfolding load_library and_then
  load_library-IsIndexed o s i = ground (arith, ensured o s i)

  pub load_library-loaded :
      (o : Outcome Library) (s : S) (l : Library) (s' : S)
      → IsIndexed o s
      → load_library files defaults s ≡ (done l, s')
      → (l ≡ loaded defaults.saved_at o) × IsIndexed o s'
  unfolding load_library and_then read_or_empty
  load_library-loaded o s l s' i h = ground (arith, ensured o s i, h)

  resolved :
      (o : Outcome Library) (folder : String) (s : S)
      → IsIndexed o s
      → IsIndexed o (resolve_folder files defaults folder s).1
  unfolding resolve_folder and_then
  resolved o folder s i = ground (arith, i, load_library-IsIndexed o s i)

  written :
      (id : String) (c : StoredCourse B) (o : Outcome Library) (s : S)
      → IsIndexed o s
      → IsIndexed o (files.write_course id c s).1
  written id c o s i = ground (arith, i, laws.write_course-keeps id c s)

  deleted :
      (id : String) (o : Outcome Library) (s : S)
      → IsIndexed o s
      → IsIndexed o (files.delete_course_file id s).1
  deleted id o s i = ground (arith, i, laws.delete-keeps id s)

  indexed :
      (l : Library) (s s' : S) → files.write_library l s ≡ (done tt, s') → IsIndexed (done l) s'
  indexed l s s' h = ground (arith, laws.write_library-read l s s' h)

  -- A course that is created has an entry behind those that were read.
  created :
      (now : ℕ) (fresh : String) (given : PartialCourse B) (o : Outcome Library) (s s' : S)
      (c : StoredCourse B)
      → IsIndexed o s
      → create_course files defaults now fresh given s ≡ (done c, s')
      → (c ≡ new_course defaults now fresh given)
        × (folder : String) × IsIndexed
            (done (with_entry defaults.saved_at (loaded defaults.saved_at o) (new_entry c folder)))
            s'
  unfolding create_course
  created now fresh given o s s' c i h =
      let new = new_course defaults now fresh given in
      let s1 = (ensure_directories files defaults s).1 in
      let (u, e1, h1) = and_then-done _ _ h in
      let s2 = (files.write_course new.id new s1).1 in
      let (v, e2, h2) = and_then-done _ _ h1 in
      let (l, e3, h3) = and_then-done _ _ h2 in
      let s3 = (load_library files defaults s2).1 in
      let (folder, e4, h4) = and_then-done _ _ h3 in
      let s4 = (resolve_folder files defaults new.settings.destination_folder s3).1 in
      let (w, e5, h5) = and_then-done _ _ h4 in
      let s5 = (files.write_library (with_entry defaults.saved_at l (new_entry new folder)) s4).1 in
      let i2 = written new.id new o s1 (ensured o s i) in
      let (el, i3) = load_library-loaded o s2 l s3 i2 e3 in
      let ec : new ≡ c = ground (arith, h5) in
      let es : s5 ≡ s' = ground (arith, h5) in
      let i5 = indexed (with_entry defaults.saved_at l (new_entry new folder)) s4 s5 e5 in
      (
        sym ec,
        folder,
        subst
            (λ x.
              IsIndexed
                (done
                  (with_entry defaults.saved_at (loaded defaults.saved_at o) (new_entry x folder)))
                s')
            ec
            (subst
              (λ t.
                IsIndexed
                  (done (
                    with_entry defaults.saved_at (loaded defaults.saved_at o)
                      (new_entry new folder)))
                  t)
              es
              (subst
                (λ m. IsIndexed (done (with_entry defaults.saved_at m (new_entry new folder))) s5)
                el i5)),
      )

  -- A course that is removed leaves the entries that were read, but for its own.
  removed :
      (id : String) (o : Outcome Library) (s s' : S)
      → IsIndexed o s
      → delete_course files defaults id s ≡ (true, s')
      → IsIndexed (done (less_entry defaults.saved_at (loaded defaults.saved_at o) id)) s'
  unfolding delete_course remove_course
  removed id o s s' i h =
      let er : remove_course files defaults id s ≡ (done tt, s') = ground (arith, h) in
      let s1 = (files.delete_course_file id s).1 in
      let (u, e1, h1) = and_then-done _ _ er in
      let s2 = (load_library files defaults s1).1 in
      let (l, e2, h2) = and_then-done _ _ h1 in
      let (el, i2) = load_library-loaded o s1 l s2 (deleted id o s i) e2 in
      subst (λ m. IsIndexed (done (less_entry defaults.saved_at m id)) s') el
        (indexed (less_entry defaults.saved_at l id) s2 s' h2)

  -- Over an adapter whose files are apart, an index that is there but cannot be read is lost: a deletion
  -- that succeeds leaves an empty index, and a creation that succeeds one with the new course only and
  -- without folders.
  pub unread_index_lost :
      (id fresh : String) (now : ℕ) (given : PartialCourse B) (e : Thrown) (s s1 s2 : S)
      (c : StoredCourse B)
      → IsIndexed (failed e) s
      → delete_course files defaults id s ≡ (true, s1)
      → create_course files defaults now fresh given s ≡ (done c, s2)
      → IsIndexed (done (empty_library defaults.saved_at)) s1
        × ((folder : String) × IsIndexed
              (done (record {
                version = "1.0";
                last_updated = defaults.saved_at;
                courses = new_entry c folder ∷ [];
                folders = [];
              }))
              s2)
  unfolding without_entry
  unread_index_lost id fresh now given e s s1 s2 c i hd hc =
      let (ec, folder, i2) = created now fresh given (failed e) s s2 c i hc in
      (removed id (failed e) s s1 i hd, (folder, i2))

-- Over an adapter whose files are apart, creating a course with an id that has no entry, and deleting
-- it again later, leaves the index as it was, but for the time of its last change, if both succeed.
pub delete-create :
    {S B : Type 0} (files : CourseFiles S B) (defaults : Defaults B) (laws : IsApart files)
    (now later : ℕ) (fresh : String) (given : PartialCourse B) (l : Library) (s s1 s2 : S)
    (c : StoredCourse B)
    → IsIndexed files defaults laws (done l) s
    → find_entry c.id l.courses ≡ none
    → create_course files defaults now fresh given s ≡ (done c, s1)
    → delete_course files (record defaults { saved_at = later }) c.id s1 ≡ (true, s2)
    → IsIndexed files defaults laws (done (record l { last_updated = later })) s2
unfolding new_entry
delete-create files defaults laws now later fresh given l s s1 s2 c i f hc hd =
    let (ec, folder, i1) = created files defaults laws now fresh given (done l) s s1 c i hc in
    let with : Library = with_entry defaults.saved_at l (new_entry c folder) in
    let i2 =
      removed files (record defaults { saved_at = later }) laws c.id (done with) s1 s2
        (record { there = i1.there; reads = i1.reads }) hd in
    subst
      (λ es.
        IsIndexed files defaults laws (done (record l { last_updated = later; courses = es })) s2)
      (without-fresh c.id (new_entry c folder) l.courses refl f)
      (record { there = i2.there; reads = i2.reads })
