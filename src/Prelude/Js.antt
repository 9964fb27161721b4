-- ===== src/Prelude/Js.antt =====
-- JavaScript's values as the frontend uses them: truthiness of strings, `||` with a fallback,
-- `String.prototype.trim`, `length` and `includes`, and the values that a `catch` can receive.
-- A string is a native text; its UTF-16 code units are computed where the source counts them.
-- (Texts hold no lone surrogates.)
use Prim.Native.Nat.{ℕ, ◌+◌, ◌-◌, ◌/◌, ◌%◌}
use Prim.Native.Char.{code}
use Prim.Native.String.{String}
use mathlib.Core.Path.{◌≡◌, refl}
use native.Mathlib.Omega.{arith}
use mathlib.Core.Bool.{Bool, true, false, not, ◌&&◌, ◌||◌}
use mathlib.Core.Option.{Option, none, some}
use mathlib.Core.List.{List, [], ◌∷◌, ◌++◌, reverse}
use text.Mathlib.Text.{◌==◌ as str_eq}
use mirai_app.Prelude.Tests.{leb, ltb, nat_eq, if◌then◌else◌}

-- `!!s`, `if (s)`: every string but the empty one.
abbrev pub truthy : String → Bool
truthy s = not (str_eq s "")

-- `!!o` for a value of type `string | null` or `string | undefined`.
abbrev pub truthy? : Option String → Bool
truthy? none = false
truthy? (some s) = truthy s

-- `s || null` at `string | undefined`.
abbrev pub or_null : Option String → Option String
or_null none = none
or_null (some s) = if truthy s then some s else none

-- `s || d` at `string | undefined` and a string.
abbrev pub or_text : Option String → String → String
or_text none d = d
or_text (some s) d = if truthy s then s else d

-- `a + b` on strings, and a template literal's parts one after another.
unfoldable pub concat : String → String → String
concat String.[] t = t
concat (String.◌∷◌ c s) t = String.◌∷◌ c (concat s t)

-- A character's UTF-16 code units: two above the basic plane.
abbrev pub char_units : ℕ → List ℕ
char_units c =
    if ltb c 65536
    then c ∷ []
    else (0xD800 + (c - 65536) / 1024) ∷ (0xDC00 + (c - 65536) % 1024) ∷ []

unfoldable pub units : String → List ℕ
units String.[] = []
units (String.◌∷◌ c s) = char_units (code c) ++ units s

-- `WhiteSpace` and `LineTerminator` of ECMAScript, which `trim` removes and `\s` matches.
abbrev pub is_space : ℕ → Bool
is_space c =
    (leb 9 c && leb c 13)
    || nat_eq c 32
    || nat_eq c 160
    || nat_eq c 0x1680
    || (leb 0x2000 c && leb c 0x200A)
    || nat_eq c 0x2028
    || nat_eq c 0x2029
    || nat_eq c 0x202F
    || nat_eq c 0x205F
    || nat_eq c 0x3000
    || nat_eq c 0xFEFF

pub trim_start : List ℕ → List ℕ
trim_start [] = []
trim_start (c ∷ cs) = let rest = trim_start cs in if is_space c then rest else c ∷ cs

unfoldable pub trim : List ℕ → List ℕ
unfolding trim_start
trim cs = reverse (trim_start (reverse (trim_start cs)))

-- `l.length > 0`.
abbrev pub is_nonempty {ℓ} : {A : Type ℓ} → List A → Bool
is_nonempty [] = false
is_nonempty (x ∷ xs) = true

-- `s.trim().length > 0`.
unfoldable pub has_text : String → Bool
unfolding trim units
has_text s = is_nonempty (trim (units s))

-- `===` on code units.
unfoldable pub same_text : List ℕ → List ℕ → Bool
same_text [] [] = true
same_text (c ∷ cs) (d ∷ ds) = nat_eq c d && same_text cs ds
same_text _ _ = false

-- Texts that are `===` are equal.
pub same_text-eq : (cs ds : List ℕ) → same_text cs ds ≡ true → cs ≡ ds
unfolding same_text
same_text-eq [] [] h = refl
same_text-eq [] (d ∷ ds) h = cc
same_text-eq (c ∷ cs) [] h = cc
same_text-eq (c ∷ cs) (d ∷ ds) h = ground (arith, same_text-eq cs ds)

pub same_text_refl : (cs : List ℕ) → same_text cs cs ≡ true
unfolding same_text
same_text_refl [] = refl
same_text_refl (c ∷ cs) = ground (arith, same_text_refl cs)

-- `cs.startsWith(p)` on code units.
unfoldable pub has_prefix : List ℕ → List ℕ → Bool
has_prefix cs [] = true
has_prefix [] (p ∷ ps) = false
has_prefix (c ∷ cs) (p ∷ ps) = nat_eq c p && has_prefix cs ps

-- `cs.includes(p)` on code units.
unfoldable pub includes : List ℕ → List ℕ → Bool
unfolding has_prefix
includes [] p = has_prefix [] p
includes (c ∷ cs) p = has_prefix (c ∷ cs) p || includes cs p

-- `toLowerCase` on a code unit of ASCII and on the Kelvin sign. No other character's lower case
-- helps to make up an ASCII text that is looked for in a message.
unfoldable pub to_lower : ℕ → ℕ
to_lower c = if leb 65 c && leb c 90 then c + 32 else if nat_eq c 8490 then 107 else c

-- What a `throw` may carry: the error classes of machines/shared/types.ts, another `Error`, a
-- string, or any other value.
pub data Thrown : Type 0 where
  flow_expired credentials network session_expired : String → Thrown
  invitation_expired invitation_invalid invitation_revoked : String → Thrown
  invitation_already_accepted plain bare : String → Thrown
  other : Thrown

-- `e instanceof Error`.
abbrev pub is_error : Thrown → Bool
is_error (bare s) = false
is_error other = false
is_error _ = true

-- `e instanceof Error ? e.message : fallback`.
unfoldable pub message_or : Thrown → String → String
message_or (flow_expired s) d = s
message_or (credentials s) d = s
message_or (network s) d = s
message_or (session_expired s) d = s
message_or (invitation_expired s) d = s
message_or (invitation_invalid s) d = s
message_or (invitation_revoked s) d = s
message_or (invitation_already_accepted s) d = s
message_or (plain s) d = s
message_or (bare s) d = d
message_or other d = d

-- How a promise settles.
pub data Outcome {ℓ} (A : Type ℓ) : Type ℓ where
  done : A → Outcome A
  failed : Thrown → Outcome A
