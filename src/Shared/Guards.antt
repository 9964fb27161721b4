-- ===== src/Shared/Guards.antt =====
-- machines/shared/guards.ts: the guards on the context of a machine.
use mirai_app.Prelude.{
  ℕ, Bool, true, false, not, ◌&&◌, ◌||◌, Option, none, some, List, [], ◌∷◌, leb, if◌then◌else◌,
}
use mirai_app.Shared.Errors.{AuthError}

pub data Role : Type 0 where
  unspecified owner admin member instructor sme : Role

-- `MAX_RETRY_COUNT`.
abbrev pub max_retry_count : ℕ
max_retry_count = 3

-- `canRetry`, over the two fields of the context that it reads.
abbrev pub can_retry : ℕ → Option AuthError → Bool
can_retry retry_count none = if leb max_retry_count retry_count then false else true
can_retry retry_count (some e) = if leb max_retry_count retry_count then false else e.retryable

-- `isRetryableError`.
abbrev pub is_retryable_error : Option AuthError → Bool
is_retryable_error none = false
is_retryable_error (some e) = e.retryable

-- `isAdmin` and `isOwner`, over the user's role (`none`: no user).
unfoldable pub is_admin : Option Role → Bool
is_admin none = false
is_admin (some Role.admin) = true
is_admin (some Role.owner) = true
is_admin (some _) = false

unfoldable pub is_owner : Option Role → Bool
is_owner none = false
is_owner (some Role.owner) = true
is_owner (some _) = false

module _ {C : Type 0} where
  -- `allOf`, `anyOf` and `not`.
  unfoldable pub all_of : List (C → Bool) → C → Bool
  all_of [] c = true
  all_of (g ∷ gs) c = g c && all_of gs c

  unfoldable pub any_of : List (C → Bool) → C → Bool
  any_of [] c = false
  any_of (g ∷ gs) c = g c || any_of gs c

  abbrev pub negate : (C → Bool) → C → Bool
  negate g c = not (g c)
