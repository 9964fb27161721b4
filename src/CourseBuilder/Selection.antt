-- ===== src/CourseBuilder/Selection.antt =====
-- Choosing SMEs and audiences: TOGGLE_SME and TOGGLE_AUDIENCE flip one id and leave the others.
use mirai_app.Prelude.{
  ◌≡◌, refl, String, false, not, ◌&&◌, ◌||◌, List, [], ◌∷◌, ◌++◌, arith, str_eq, eq_iff,
  if◌then◌else◌,
}
use mirai_app.CourseBuilder.{contains, without, toggle}

contains-one : (x y : String) → contains y (x ∷ []) ≡ str_eq x y
unfolding contains
contains-one x y = ground arith

contains-append :
    (x : String) (xs ys : List String) → contains x (xs ++ ys) ≡ (contains x xs || contains x ys)
unfolding contains
contains-append x [] ys = refl
contains-append x (y ∷ xs) ys = ground (arith, contains-append x xs ys)

contains-without :
    (x y : String) (xs : List String)
    → contains y (without x xs) ≡ (not (str_eq x y) && contains y xs)
unfolding contains without
contains-without x y [] = ground arith
contains-without x y (z ∷ xs) =
    ground (arith, contains-without x y xs, eq_iff z x, eq_iff z y, eq_iff x y)

-- A toggle flips whether its id is selected, and changes no other id.
pub contains-toggle :
    (x y : String) (xs : List String)
    → contains y (toggle x xs) ≡ (if str_eq x y then not (contains x xs) else contains y xs)
unfolding toggle
contains-toggle x y xs =
    ground
      (arith, contains-without x y xs, contains-append y xs (x ∷ []), contains-one x y, eq_iff x y)

without-absent : (x : String) (xs : List String) → contains x xs ≡ false → without x xs ≡ xs
unfolding contains without
without-absent x [] h = refl
without-absent x (y ∷ xs) h = ground (arith, without-absent x xs)

without-snoc :
    (x : String) (xs : List String) → contains x xs ≡ false → without x (xs ++ x ∷ []) ≡ xs
unfolding contains without
without-snoc x [] h = ground (arith, eq_iff x x)
without-snoc x (y ∷ xs) h = ground (arith, without-snoc x xs)

-- Selecting an id that is not selected and toggling it again restores the list, order included.
pub toggle-toggle :
    (x : String) (xs : List String) → contains x xs ≡ false → toggle x (toggle x xs) ≡ xs
unfolding toggle
toggle-toggle x xs h = ground (arith, contains-toggle x x xs, eq_iff x x, without-snoc x xs)
