-- ===== src/Routes/Match.antt =====
-- What a route of lib/auth.config.ts matches.
use mirai_app.Prelude.{
  ℕ, ◌≡◌, ◌↔◌, ◌⊎◌, inl, inr, refl, true, ◌||◌, none, List, [], ◌∷◌, ◌++◌, arith, Bool-cases,
}
use mirai_app.Prelude.Js.{same_text-eq, same_text_refl, same_text, has_prefix}
use mirai_app.Routes.{slash, without_star, matches}

-- `has_prefix` decides a prefix.
has_prefix-split : (cs p : List ℕ) → has_prefix cs p ≡ true → (rest : List ℕ) × (cs ≡ p ++ rest)
unfolding has_prefix
has_prefix-split cs [] h = (cs, refl)
has_prefix-split [] (p ∷ ps) h = cc
has_prefix-split (c ∷ cs) (p ∷ ps) h =
    let (rest, e) = has_prefix-split cs ps (ground arith) in (rest, ground (arith, e))

has_prefix-append : (p rest : List ℕ) → has_prefix (p ++ rest) p ≡ true
unfolding has_prefix
has_prefix-append [] rest = nil_prefix rest
  where
    nil_prefix : (cs : List ℕ) → has_prefix cs [] ≡ true
    nil_prefix [] = refl
    nil_prefix (c ∷ cs) = refl
has_prefix-append (c ∷ p) rest = ground (arith, has_prefix-append p rest)

-- A route without `/*` matches itself and the paths below it, and nothing else.
pub matches_iff :
    (pattern path : List ℕ)
    → without_star pattern ≡ none
    → (matches pattern path ≡ true)
      ↔ ((path ≡ pattern) ⊎ ((rest : List ℕ) × (path ≡ (pattern ++ slash) ++ rest)))
unfolding matches
matches_iff pattern path star = (split, join)
  where
    split :
        matches pattern path ≡ true
        → (path ≡ pattern) ⊎ ((rest : List ℕ) × (path ≡ (pattern ++ slash) ++ rest))
    split h = elim (Bool-cases (same_text path pattern)) [
      | inl e ↦ inl (same_text-eq path pattern e)
      | inr e ↦ inr (has_prefix-split path (pattern ++ slash) (ground arith))
    ]

    join :
        (path ≡ pattern) ⊎ ((rest : List ℕ) × (path ≡ (pattern ++ slash) ++ rest))
        → matches pattern path ≡ true
    join (inl e) = ground (arith, same_text_refl pattern)
    join (inr (rest, e)) = ground (arith, has_prefix-append (pattern ++ slash) rest)

-- Two prefixes of one text: one of them is a prefix of the other.
pub prefixes_comparable :
    (cs p q : List ℕ)
    → has_prefix cs p ≡ true
    → has_prefix cs q ≡ true
    → (has_prefix p q || has_prefix q p) ≡ true
unfolding has_prefix
prefixes_comparable cs [] [] h k = refl
prefixes_comparable cs [] (d ∷ q) h k = refl
prefixes_comparable cs (c ∷ p) [] h k = refl
prefixes_comparable [] (c ∷ p) (d ∷ q) h k = cc
prefixes_comparable (b ∷ cs) (c ∷ p) (d ∷ q) h k = ground (arith, prefixes_comparable cs p q)

has_prefix_self : (p : List ℕ) → has_prefix p p ≡ true
unfolding has_prefix
has_prefix_self [] = refl
has_prefix_self (c ∷ p) = ground (arith, has_prefix_self p)

has_prefix_shorter : (cs p q : List ℕ) → has_prefix cs (p ++ q) ≡ true → has_prefix cs p ≡ true
unfolding has_prefix
has_prefix_shorter [] [] q h = refl
has_prefix_shorter (c ∷ cs) [] q h = refl
has_prefix_shorter [] (d ∷ p) q h = cc
has_prefix_shorter (c ∷ cs) (d ∷ p) q h = ground (arith, has_prefix_shorter cs p q)

-- A path that a plain route matches begins with it.
pub matches-has_prefix :
    (p path : List ℕ) → without_star p ≡ none → matches p path ≡ true → has_prefix path p ≡ true
unfolding matches
matches-has_prefix p path s h = elim (Bool-cases (same_text path p)) [
  | inl e ↦ rw (same_text-eq path p e) (has_prefix_self p)
  | inr e ↦ has_prefix_shorter path p slash (ground arith)
]
