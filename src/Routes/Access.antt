-- ===== src/Routes/Access.antt =====
-- What the middleware lets through.
use mirai_app.Prelude.{
  ◌≢◌, ◌⊎◌, inl, inr, ap, sym, ◌++◌, none, Bool-cases, Option-cases, ℕ, ◌≡◌, refl, String, Bool,
  true, false, not, ◌&&◌, ◌||◌, List, [], ◌∷◌, arith, if◌then◌else◌, is_some,
}
use mathlib.Core.Path.{subst}
use mathlib.Core.List.{Memᴰ}
use mirai_app.Routes.Token.{IsTokenAt, extract_finds, extract-IsTokenAt}
use mirai_app.Prelude.Js.{
  same_text, same_text-eq, done, failed, Outcome, has_prefix, units, includes,
}
use mirai_app.Routes.Match.{matches_iff, prefixes_comparable, matches-has_prefix}
use mirai_app.Routes.{
  bearer, cookie, not_ok, session, credentials_of, extract_session_token, public_routes,
  Credentials, Whoami, next, redirect_to_login, slash, without_star, matches_any,
  is_protected_route, is_public_route, is_skipped, check_session, middleware, protected_routes,
}

-- Whether no route of a list can have a path in common with a route.
abbrev apart_from : List ℕ → List String → Bool
apart_from p [] = true
apart_from p (q ∷ qs) = not (has_prefix p (units q) || has_prefix (units q) p) && apart_from p qs

abbrev routes_apart : List String → List String → Bool
routes_apart [] qs = true
routes_apart (p ∷ ps) qs = apart_from (units p) qs && routes_apart ps qs

abbrev plain_routes : List String → Bool
plain_routes [] = true
plain_routes (p ∷ ps) = not (is_some (without_star (units p))) && plain_routes ps

apart_one :
    (p : String) (qs : List String) (path : List ℕ)
    → has_prefix path (units p) ≡ true
    → plain_routes qs ≡ true
    → apart_from (units p) qs ≡ true
    → matches_any qs path ≡ false
unfolding matches_any
apart_one p [] path h s a = refl
apart_one p (q ∷ qs) path h s a = ground (
  arith,
  apart_one p qs path,
  matches-has_prefix (units q) path,
  prefixes_comparable path (units p) (units q),
)

apart_all :
    (ps qs : List String) (path : List ℕ)
    → plain_routes ps ≡ true
    → plain_routes qs ≡ true
    → routes_apart ps qs ≡ true
    → matches_any ps path ≡ true
    → matches_any qs path ≡ false
unfolding matches_any
apart_all [] qs path s t a h = cc
apart_all (p ∷ ps) qs path s t a h =
    ground (arith, apart_all ps qs path, matches-has_prefix (units p) path, apart_one p qs path)

-- No path is both protected and public.
pub protected_not_public :
    (path : List ℕ) → is_protected_route path ≡ true → is_public_route path ≡ false
unfolding is_protected_route is_public_route
protected_not_public path h =
    apart_all protected_routes public_routes path checked checked' checked'' h
  where
    checked : plain_routes protected_routes ≡ true
    checked = unfold without_star units in refl

    checked' : plain_routes public_routes ≡ true
    checked' = unfold without_star units in refl

    checked'' : routes_apart protected_routes public_routes ≡ true
    checked'' = unfold has_prefix units in refl

-- A path that is one of the routes, or lies below one.
abbrev pub IsBelow : List String → List ℕ → Type 0
IsBelow routes path =
    (r : String) × Memᴰ r routes
    × ((path ≡ units r) ⊎ ((rest : List ℕ) × (path ≡ (units r ++ slash) ++ rest)))

below_matches :
    (rs : List String) (path : List ℕ)
    → plain_routes rs ≡ true
    → IsBelow rs path
    → matches_any rs path ≡ true
unfolding matches_any
below_matches [] path s (r, m, b) = elim m [ ]
below_matches (q ∷ qs) path s (r, Memᴰ.head same, b) =
    let plain : without_star (units q) ≡ none = ground arith in
    let at = ap units same in
    let matched =
      (matches_iff (units q) path plain).1
        (subst (λ u. (path ≡ u) ⊎ ((rest : List ℕ) × (path ≡ (u ++ slash) ++ rest))) at b) in
    ground (arith, matched)
below_matches (q ∷ qs) path s (r, Memᴰ.tail m, b) =
    ground (arith, below_matches qs path (ground arith) (r, m, b))

below_protected : (path : List ℕ) → IsBelow protected_routes path → is_protected_route path ≡ true
unfolding is_protected_route
below_protected path b = below_matches protected_routes path (unfold without_star units in refl) b

abbrev all_apart : List String → List ℕ → Bool
all_apart [] q = true
all_apart (r ∷ rs) q = not (has_prefix (units r) q || has_prefix q (units r)) && all_apart rs q

-- A path that begins with a route has no other beginning that is apart from it.
begins_apart :
    (rs : List String) (q path : List ℕ)
    → plain_routes rs ≡ true
    → matches_any rs path ≡ true
    → all_apart rs q ≡ true
    → has_prefix path q ≡ false
unfolding matches_any
begins_apart [] q path s h a = cc
begins_apart (r ∷ rs) q path s h a = ground (
  arith,
  begins_apart rs q path,
  matches-has_prefix (units r) path,
  prefixes_comparable path (units r) q,
)

-- The root is no protected path.
not_root : (path : List ℕ) → is_protected_route path ≡ true → same_text path slash ≡ false
unfolding is_protected_route
not_root path h = elim (Bool-cases (same_text path slash)) [
  | inl e ↦
      let at = same_text-eq path slash e in
      let no : matches_any protected_routes slash ≡ false = unfold matches_any in refl in
      ground (arith, ap (matches_any protected_routes) at, no, h)
  | inr e ↦ e
]

-- The credentials that stand in a cookie header: a token of the session cookie, or, if there is
-- none, the header itself.
abbrev pub IsCredentials : List ℕ → Credentials → Type 0
IsCredentials cookies (bearer token) =
    (before : List ℕ) × (after : List ℕ) × IsTokenAt cookies before token after
IsCredentials cookies (cookie t) =
    (t ≡ cookies) × ((before token after : List ℕ) → IsTokenAt cookies before token after → ⊥)

credentials_of-IsCredentials : (cookies : List ℕ) → IsCredentials cookies (credentials_of cookies)
credentials_of-IsCredentials cookies = elim (Option-cases (extract_session_token cookies)) [
  | inl e ↦
      let same : credentials_of cookies ≡ cookie cookies = ground (arith, e) in
      let all : IsCredentials cookies (cookie cookies) = (
        refl,
        λ before token after at. absurd (cc (extract_finds cookies before token after at, e)),
      ) in
      subst (IsCredentials cookies) (sym same) all
  | inr (token, e) ↦
      let same : credentials_of cookies ≡ bearer token = ground (arith, e) in
      subst (IsCredentials cookies) (sym same) (extract-IsTokenAt cookies token e)
]

module _ (whoami : Credentials → Outcome Whoami) where
  -- Whether the session is active is what Kratos answers.
  check_session-done :
      (cookies : List ℕ)
      → check_session whoami cookies ≡ true
      → whoami (credentials_of cookies) ≡ done (session true)
  unfolding check_session
  check_session-done cookies h = go (whoami (credentials_of cookies)) refl
    where
      go :
          (o : Outcome Whoami)
          → whoami (credentials_of cookies) ≡ o
          → whoami (credentials_of cookies) ≡ done (session true)
      go (failed e) q = ground (arith, h, q)
      go (done not_ok) q = ground (arith, h, q)
      go (done (session true)) q = q
      go (done (session false)) q = ground (arith, h, q)

  check_session-refused :
      (cookies : List ℕ)
      → check_session whoami cookies ≡ false
      → whoami (credentials_of cookies) ≢ done (session true)
  unfolding check_session
  check_session-refused cookies h e = ground (arith, h, e)

  -- What the middleware answers on a protected path.
  protected_branch :
      (cookies path : List ℕ)
      → includes path (units ".") ≡ false
      → IsBelow protected_routes path
      → middleware whoami cookies path
        ≡ (if check_session whoami cookies then next else redirect_to_login path)
  unfolding middleware is_skipped is_protected_route
  protected_branch cookies path d b =
      let p = below_protected path b in
      let plain : plain_routes protected_routes ≡ true = unfold without_star units in refl in
      let not_next =
        begins_apart protected_routes (units "/_next") path plain p
          (unfold has_prefix units in refl) in
      let not_api =
        begins_apart protected_routes (units "/api") path plain p
          (unfold has_prefix units in refl) in
      ground (arith, protected_not_public path, p, not_next, not_api, d, not_root path p)

  -- A path without a full stop that is a protected route or lies below one is served exactly if
  -- Kratos answers an active session to the credentials in the cookies, the token of the session
  -- cookie or, without one, the cookies themselves; otherwise it redirects to the login with the
  -- page to return to.
  pub protected_page :
      (cookies path : List ℕ)
      → includes path (units ".") ≡ false
      → IsBelow protected_routes path
      → (c : Credentials) × IsCredentials cookies c
        × (((middleware whoami cookies path ≡ next) × (whoami c ≡ done (session true)))
            ⊎ ((middleware whoami cookies path ≡ redirect_to_login path)
                × (whoami c ≢ done (session true))))
  protected_page cookies path d b =
      let branch = protected_branch cookies path d b in
      (
        credentials_of cookies,
        credentials_of-IsCredentials cookies,
        elim (Bool-cases (check_session whoami cookies)) [
          | inl h ↦ inl (ground (arith, branch, h), check_session-done cookies h)
          | inr h ↦ inr (ground (arith, branch, h), check_session-refused cookies h)
        ],
      )

  -- A path that is neither protected, nor the root, nor the login or registration page, is served
  -- whatever the session is.
  pub served_otherwise :
      (cookies path : List ℕ)
      → same_text path slash ≡ false
      → is_protected_route path ≡ false
      → same_text path (units "/auth/login") ≡ false
      → same_text path (units "/auth/registration") ≡ false
      → middleware whoami cookies path ≡ next
  unfolding middleware
  served_otherwise cookies path r p l g = ground arith

  -- A path with a full stop is served whatever the session is, also below a protected route.
  pub dotted_path_served :
      (cookies path : List ℕ)
      → includes path (units ".") ≡ true
      → middleware whoami cookies path ≡ next
  unfolding middleware is_skipped
  dotted_path_served cookies path d = ground arith
