-- ===== src/Shared/Email.antt =====
-- `isValidEmail` of machines/shared/guards.ts: the regular expression
-- /^[^\s@]+@[^\s@]+\.[^\s@]+$/ as one pass over the code units, and what it accepts.
use mirai_app.Prelude.{
  ◌∙◌, ◌≡◌, refl, ap, ◌++◌, arith, Bool-cases, inl, inr, ◌↔◌, ℕ, String, Bool, true, false, not,
  ◌&&◌, ◌||◌, List, [], ◌∷◌, nat_eq, if◌then◌else◌,
}
use mirai_app.Prelude.Js.{units, is_space, is_nonempty}

abbrev at_sign : ℕ
at_sign = 64

abbrev dot : ℕ
dot = 46

-- `[^\s@]`.
pub plain_unit : ℕ → Bool
plain_unit c = not (is_space c || nat_eq c at_sign)

pub all_plain : List ℕ → Bool
all_plain [] = true
all_plain (c ∷ cs) = plain_unit c && all_plain cs

-- A full stop with something behind it.
dot_inside : List ℕ → Bool
dot_inside [] = false
dot_inside (c ∷ cs) = nat_eq c dot && is_nonempty cs || dot_inside cs

-- `[^\s@]+\.[^\s@]+$`.
email_domain : List ℕ → Bool
unfolding all_plain dot_inside
email_domain [] = false
email_domain (c ∷ cs) = plain_unit c && all_plain cs && dot_inside cs

-- `[^\s@]+@` and the rest; the flag tells whether a unit was read before the `@`.
email_local : Bool → List ℕ → Bool
unfolding email_domain plain_unit
email_local seen [] = false
email_local seen (c ∷ cs) =
    let more = email_local true cs in
    if plain_unit c then more else if nat_eq c at_sign then seen && email_domain cs else false

unfoldable pub is_valid_email : String → Bool
unfolding email_local units
is_valid_email s = email_local false (units s)

-- What the regular expression matches: a local part, a name, and a last label, none of them empty
-- or with a space or an `@` in it.
pub record IsEmail (s : List ℕ) : Type 0 where
  pub local : List ℕ
  pub name : List ℕ
  pub label : List ℕ
  pub split : s ≡ local ++ at_sign ∷ (name ++ dot ∷ label)
  pub local_given : is_nonempty local ≡ true
  pub name_given : is_nonempty name ≡ true
  pub label_given : is_nonempty label ≡ true
  pub local_plain : all_plain local ≡ true
  pub name_plain : all_plain name ≡ true
  pub label_plain : all_plain label ≡ true

-- A domain that was accepted, cut at a full stop.
record IsDomain (s : List ℕ) : Type 0 where
  name : List ℕ
  label : List ℕ
  split : s ≡ name ++ dot ∷ label
  label_given : is_nonempty label ≡ true
  name_plain : all_plain name ≡ true
  label_plain : all_plain label ≡ true

cut_at_dot : (cs : List ℕ) → all_plain cs ≡ true → dot_inside cs ≡ true → IsDomain cs
unfolding all_plain dot_inside
cut_at_dot [] p h = absurd (cc)
cut_at_dot (c ∷ cs) p h = elim (Bool-cases (nat_eq c dot && is_nonempty cs)) [
  | inl here ↦ record {
    name = [];
    label = cs;
    split = ground (arith);
    label_given = ground arith;
    name_plain = refl;
    label_plain = ground arith;
  }
  | inr later ↦
      let d = cut_at_dot cs (ground arith) (ground arith) in
      record {
        name = c ∷ d.name;
        label = d.label;
        split = ap (λ l. c ∷ l) d.split;
        label_given = d.label_given;
        name_plain = ground (arith, d.name_plain);
        label_plain = d.label_plain;
      }
]

-- A local part that was accepted, cut at the `@`.
record IsAddress (seen : Bool) (s : List ℕ) : Type 0 where
  local : List ℕ
  first : ℕ
  rest : List ℕ
  split : s ≡ local ++ at_sign ∷ (first ∷ rest)
  local_given : (seen || is_nonempty local) ≡ true
  local_plain : all_plain local ≡ true
  first_plain : plain_unit first ≡ true
  rest_plain : all_plain rest ≡ true
  has_dot : dot_inside rest ≡ true

at_sign_not_plain : plain_unit at_sign ≡ false
unfolding plain_unit
at_sign_not_plain = refl

here :
    (seen : Bool) (cs : List ℕ)
    → seen ≡ true
    → email_domain cs ≡ true
    → IsAddress seen (at_sign ∷ cs)
unfolding email_domain
here seen [] e h = absurd (cc)
here seen (c ∷ cs) e h = record {
  local = [];
  first = c;
  rest = cs;
  split = refl;
  local_given = ground arith;
  local_plain = unfold all_plain in refl;
  first_plain = ground arith;
  rest_plain = ground arith;
  has_dot = ground arith;
}

cut_at_sign : (seen : Bool) (cs : List ℕ) → email_local seen cs ≡ true → IsAddress seen cs
unfolding email_local
cut_at_sign seen [] h = absurd (cc)
cut_at_sign seen (c ∷ cs) h = elim (Bool-cases (plain_unit c)) [
  | inl p ↦
      let a = cut_at_sign true cs (ground arith) in
      record {
        local = c ∷ a.local;
        first = a.first;
        rest = a.rest;
        split = ap (λ l. c ∷ l) a.split;
        local_given = ground arith;
        local_plain = unfold all_plain in ground (arith, a.local_plain);
        first_plain = a.first_plain;
        rest_plain = a.rest_plain;
        has_dot = a.has_dot;
      }
  | inr q ↦ rw (nat_eq_eq c (ground arith)) (here seen cs (ground arith) (ground arith))
]
  where
    nat_eq_eq : (c : ℕ) → nat_eq c at_sign ≡ true → c ≡ at_sign
    nat_eq_eq c e = ground arith

sound : (cs : List ℕ) → email_local false cs ≡ true → IsEmail cs
sound cs h =
    let a = cut_at_sign false cs h in
    let d = cut_at_dot a.rest a.rest_plain a.has_dot in
    record {
      local = a.local;
      name = a.first ∷ d.name;
      label = d.label;
      split = a.split ∙ ap (λ l. a.local ++ at_sign ∷ (a.first ∷ l)) d.split;
      local_given = a.local_given;
      name_given = refl;
      label_given = d.label_given;
      local_plain = a.local_plain;
      name_plain = unfold all_plain in ground (arith, a.first_plain, d.name_plain);
      label_plain = d.label_plain;
    }

-- The other way: an address is read to its end.
dot_inside-append :
    (name label : List ℕ) → is_nonempty label ≡ true → dot_inside (name ++ dot ∷ label) ≡ true
unfolding dot_inside
dot_inside-append [] label h = ground arith
dot_inside-append (c ∷ name) label h = ground (arith, dot_inside-append name label)

all_plain-append :
    (xs ys : List ℕ) → all_plain xs ≡ true → all_plain ys ≡ true → all_plain (xs ++ ys) ≡ true
unfolding all_plain
all_plain-append [] ys h k = k
all_plain-append (x ∷ xs) ys h k = ground (arith, all_plain-append xs ys)

dot_plain : plain_unit dot ≡ true
unfolding plain_unit
dot_plain = refl

reads_domain :
    (name label : List ℕ)
    → is_nonempty name ≡ true
    → all_plain name ≡ true
    → is_nonempty label ≡ true
    → all_plain label ≡ true
    → email_domain (name ++ dot ∷ label) ≡ true
unfolding email_domain
reads_domain [] label g p g' p' = cc
reads_domain (c ∷ name) label g p g' p' =
    ground (arith, dot_plain, dot_inside-append name label g', all_plain-append name (dot ∷ label))

reads_local :
    (seen : Bool) (local rest : List ℕ)
    → (seen || is_nonempty local) ≡ true
    → all_plain local ≡ true
    → email_domain rest ≡ true
    → email_local seen (local ++ at_sign ∷ rest) ≡ true
unfolding email_local all_plain
reads_local seen [] rest g p d = ground (arith, at_sign_not_plain)
reads_local seen (c ∷ local) rest g p d = ground (arith, reads_local true local rest)

complete : (cs : List ℕ) → IsEmail cs → email_local false cs ≡ true
complete cs e = rw e.split (
    reads_local false e.local (e.name ++ dot ∷ e.label) e.local_given e.local_plain
      (reads_domain e.name e.label e.name_given e.name_plain e.label_given e.label_plain))

-- `isValidEmail` accepts exactly the texts of the form local@name.label, the three parts not empty
-- and without spaces and `@`.
pub is_valid_email_iff : (s : String) → (is_valid_email s ≡ true) ↔ IsEmail (units s)
unfolding is_valid_email
is_valid_email_iff s = (sound (units s), complete (units s))
