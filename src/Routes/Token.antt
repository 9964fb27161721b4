-- ===== src/Routes/Token.antt =====
-- What `extractSessionToken` finds in a cookie header.
use mirai_app.Prelude.{
  ℕ, ◌≡◌, ◌≢◌, refl, ap, ◌∙◌, true, false, some, List, [], ◌∷◌, ◌++◌, arith, nat_eq, All,
  if◌then◌else◌, is_some, Option-cases, inl, inr, Bool-cases,
}
use mirai_app.Prelude.Js.{units, is_nonempty}
use mirai_app.Routes.{up_to_semicolon, behind, session_token_key, token_here, extract_session_token}

behind-split : (cs p rest : List ℕ) → behind cs p ≡ some rest → cs ≡ p ++ rest
unfolding behind
behind-split cs [] rest h = ground arith
behind-split [] (p ∷ ps) rest h = cc
behind-split (c ∷ cs) (p ∷ ps) rest h = ground (arith, behind-split cs ps rest)

behind-append : (p rest : List ℕ) → behind (p ++ rest) p ≡ some rest
unfolding behind
behind-append [] rest = nil rest
  where
    nil : (cs : List ℕ) → behind cs [] ≡ some cs
    nil [] = refl
    nil (c ∷ cs) = refl
behind-append (c ∷ p) rest = ground (arith, behind-append p rest)

abbrev pub NotSemicolon : ℕ → Type 0
NotSemicolon c = c ≢ 59

-- The end of a text, or a semicolon.
abbrev pub EndsValue : List ℕ → Type 0
EndsValue [] = Unit
EndsValue (c ∷ cs) = c ≡ 59

pub record IsTokenAt (cookies before token after : List ℕ) : Type 0 where
  pub split : cookies ≡ before ++ (session_token_key ++ (token ++ after))
  pub given : is_nonempty token ≡ true
  pub within : All NotSemicolon token
  pub ended : EndsValue after

-- The value and what is behind it.
rest_of : List ℕ → List ℕ
rest_of [] = []
rest_of (c ∷ cs) = let rest = rest_of cs in if nat_eq c 59 then c ∷ cs else rest

up_to-split : (cs : List ℕ) → cs ≡ up_to_semicolon cs ++ rest_of cs
unfolding up_to_semicolon rest_of
up_to-split [] = refl
up_to-split (c ∷ cs) = ground (arith, up_to-split cs)

up_to-NotSemicolon : (cs : List ℕ) → All NotSemicolon (up_to_semicolon cs)
unfolding up_to_semicolon
up_to-NotSemicolon [] = tt
up_to-NotSemicolon (c ∷ cs) = elim (Bool-cases (nat_eq c 59)) [
  | inl e ↦ rw e tt
  | inr e ↦ rw e (ground arith, up_to-NotSemicolon cs)
]

rest_of-EndsValue : (cs : List ℕ) → EndsValue (rest_of cs)
unfolding rest_of
rest_of-EndsValue [] = tt
rest_of-EndsValue (c ∷ cs) = ground (arith, rest_of-EndsValue cs)

up_to-append :
    (token after : List ℕ)
    → All NotSemicolon token
    → EndsValue after
    → up_to_semicolon (token ++ after) ≡ token
unfolding up_to_semicolon
up_to-append [] [] h e = refl
up_to-append [] (c ∷ cs) h e = ground arith
up_to-append (c ∷ token) after h e = ground (arith, up_to-append token after h.1 e)

token_here-IsTokenAt :
    (cs token : List ℕ)
    → token_here cs ≡ some token
    → (after : List ℕ) × IsTokenAt cs [] token after
unfolding token_here
token_here-IsTokenAt cs token h = elim (Option-cases (behind cs session_token_key)) [
  | inl e ↦ absurd (ground arith)
  | inr (rest, e) ↦
      let t : up_to_semicolon rest ≡ token = ground arith in
      (
        rest_of rest,
        record {
          split =
              behind-split cs session_token_key rest e
              ∙ ap (λ r. session_token_key ++ r) (up_to-split rest ∙ ap (λ u. u ++ rest_of rest) t);
          given = ground arith;
          within = rw (← t) (up_to-NotSemicolon rest);
          ended = rest_of-EndsValue rest;
        },
      )
]

-- What is extracted stands in the header behind the cookie's name, has a character, and runs to the
-- next semicolon or to the end.
pub extract-IsTokenAt :
    (cookies token : List ℕ)
    → extract_session_token cookies ≡ some token
    → (before : List ℕ) × (after : List ℕ) × IsTokenAt cookies before token after
unfolding extract_session_token
extract-IsTokenAt [] token h = cc
extract-IsTokenAt (c ∷ cs) token h = elim (Option-cases (token_here (c ∷ cs))) [
  | inl e ↦
      let (before, after, at) = extract-IsTokenAt cs token (ground arith) in
      (
        c ∷ before,
        after,
        record {
          split = ap (λ r. c ∷ r) at.split;
          given = at.given;
          within = at.within;
          ended = at.ended;
        },
      )
  | inr (t, e) ↦
      let (after, at) = token_here-IsTokenAt (c ∷ cs) t e in
      let q : t ≡ token = ground arith in ([], after, rw (← q) at)
]

token_here-found :
    (token after : List ℕ)
    → is_nonempty token ≡ true
    → All NotSemicolon token
    → EndsValue after
    → token_here (session_token_key ++ (token ++ after)) ≡ some token
unfolding token_here
token_here-found token after g h e =
    rw (behind-append session_token_key (token ++ after), token_here)
      (rw (up_to-append token after h e) (rw g))

nothing_here : is_some (token_here []) ≡ false
unfolding token_here behind units
nothing_here = refl

at_later :
    (cs : List ℕ) → is_some (token_here cs) ≡ true → is_some (extract_session_token cs) ≡ true
unfolding extract_session_token
at_later [] h = cc nothing_here
at_later (c ∷ cs) h = ground arith

found_behind :
    (before rest : List ℕ)
    → is_some (token_here rest) ≡ true
    → is_some (extract_session_token (before ++ rest)) ≡ true
unfolding extract_session_token
found_behind [] rest h = at_later rest h
found_behind (c ∷ before) rest h = ground (arith, found_behind before rest)

-- Wherever the cookie stands with a value, a token is extracted.
pub extract_finds :
    (cookies before token after : List ℕ)
    → IsTokenAt cookies before token after
    → is_some (extract_session_token cookies) ≡ true
extract_finds cookies before token after at = rw at.split (
    found_behind before (session_token_key ++ (token ++ after))
      (rw (token_here-found token after at.given at.within at.ended)))
