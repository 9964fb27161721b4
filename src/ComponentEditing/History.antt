-- ===== src/ComponentEditing/History.antt =====
-- The stack of contents of the component editing.
use mirai_app.Prelude.{◌≡◌, refl, true, Option, none, some, List, [], ◌∷◌, ◌++◌, All}
use mirai_app.Prelude.Js.{is_nonempty}
use mirai_app.Content.Types.{Text}
use mirai_app.ComponentEditing.Data.{pushed, last, without_last}

abbrev pub IsFilled : List Text → Type 0
IsFilled ts = All (λ t. is_nonempty t ≡ true) ts

appended-IsFilled :
    (h : List Text) (t : Text) → IsFilled h → is_nonempty t ≡ true → IsFilled (h ++ t ∷ [])
appended-IsFilled [] t f n = (n, tt)
appended-IsFilled (u ∷ h) t f n = (f.0, appended-IsFilled h t f.1 n)

pub pushed-IsFilled : (o : Option Text) (h : List Text) → IsFilled h → IsFilled (pushed o h)
unfolding pushed
pushed-IsFilled none h f = f
pushed-IsFilled (some []) h f = f
pushed-IsFilled (some (c ∷ cs)) h f = appended-IsFilled h (c ∷ cs) f refl

pub without_last-IsFilled : (h : List Text) → IsFilled h → IsFilled (without_last h)
unfolding without_last
without_last-IsFilled [] f = tt
without_last-IsFilled (t ∷ []) f = tt
without_last-IsFilled (t ∷ u ∷ h) f = (f.0, without_last-IsFilled (u ∷ h) f.1)

pub last-append : (h : List Text) (t : Text) → last (h ++ t ∷ []) ≡ some t
unfolding last
last-append [] t = refl
last-append (u ∷ []) t = refl
last-append (u ∷ v ∷ h) t = last-append (v ∷ h) t

pub without_last-append : (h : List Text) (t : Text) → without_last (h ++ t ∷ []) ≡ h
unfolding without_last
without_last-append [] t = refl
without_last-append (u ∷ []) t = refl
without_last-append (u ∷ v ∷ h) t = rw (without_last-append (v ∷ h) t) refl

pub is_nonempty-append : (h : List Text) (t : Text) → is_nonempty (h ++ t ∷ []) ≡ true
is_nonempty-append [] t = refl
is_nonempty-append (u ∷ h) t = refl
