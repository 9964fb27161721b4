-- ===== src/UiStore/Consistent.antt =====
-- What the fields of a slice have to do with one another, after any actions.
use mirai_app.Prelude.{
  ◌≡◌, ◌≢◌, ◌⊎◌, refl, String, Bool, true, not, ◌&&◌, ◌||◌, none, is_some, List, [], ◌∷◌, ◌++◌,
  arith, All, eq_iff,
}
use mirai_app.UiStore.Data.{NotificationUi, ApiKeyTestStatus, UiStore, initial}
use mirai_app.UiStore.{
  UiAction, NotificationAction, notification_action, clear_locally_read, mark_locally_read,
  on_notification, has_text_id, distinct_after, step,
}

-- The store after one action and another.
unfoldable pub after : UiStore → List UiAction → UiStore
after s [] = s
after s (a ∷ as_) = after (step s a) as_

abbrev no_repeats : List String → Bool
no_repeats [] = true
no_repeats (i ∷ is) = not (has_text_id i is) && no_repeats is

-- No error is shown during a generation; during a test of the key its status is `testing` or was
-- set back to `idle`, and an error is there exactly after a failed test; no id is noted twice.
pub record IsConsistent (s : UiStore) : Type 0 where
  pub no_error : s.ai_generation.is_generating ≡ true → s.ai_generation.error ≡ none
  pub tested :
      s.tenant_settings.api_key_test_status ≡ ApiKeyTestStatus.testing
      → s.tenant_settings.is_testing_api_key ≡ true
  pub testing :
      s.tenant_settings.is_testing_api_key ≡ true
      → s.tenant_settings.api_key_test_status ≡ ApiKeyTestStatus.testing
        ⊎ s.tenant_settings.api_key_test_status ≡ ApiKeyTestStatus.idle
  pub failed :
      s.tenant_settings.api_key_test_status ≡ ApiKeyTestStatus.failed
      → is_some s.tenant_settings.api_key_test_error ≡ true
  pub not_failed :
      s.tenant_settings.api_key_test_status ≢ ApiKeyTestStatus.failed
      → s.tenant_settings.api_key_test_error ≡ none
  pub once : no_repeats s.notification.locally_read_ids ≡ true

has_text_id-append :
    (x : String) (is js : List String)
    → has_text_id x (is ++ js) ≡ (has_text_id x is || has_text_id x js)
unfolding has_text_id
has_text_id-append x [] js = refl
has_text_id-append x (i ∷ is) js = ground (arith, has_text_id-append x is js)

-- What `Set` keeps of a list.
has_text_id-distinct_after :
    (x : String) (seen is : List String)
    → has_text_id x (distinct_after seen is) ≡ (has_text_id x is && not (has_text_id x seen))
unfolding has_text_id distinct_after
has_text_id-distinct_after x seen [] = refl
has_text_id-distinct_after x seen (i ∷ is) = ground (
  arith,
  has_text_id-distinct_after x (i ∷ seen) is,
  has_text_id-distinct_after x seen is,
  eq_iff i x,
)

distinct_after-no_repeats : (seen is : List String) → no_repeats (distinct_after seen is) ≡ true
unfolding distinct_after has_text_id
distinct_after-no_repeats seen [] = refl
distinct_after-no_repeats seen (i ∷ is) = ground (
  arith,
  distinct_after-no_repeats (i ∷ seen) is,
  distinct_after-no_repeats seen is,
  has_text_id-distinct_after i (i ∷ seen) is,
  eq_iff i i,
)

-- The ids of an action that marks some.
abbrev marked_by : NotificationAction → List String
marked_by (mark_locally_read ids) = ids
marked_by _ = []

on_notification-once :
    (a : NotificationAction) (n : NotificationUi)
    → no_repeats n.locally_read_ids ≡ true
    → no_repeats (on_notification a n).locally_read_ids ≡ true
unfolding on_notification
on_notification-once a n h =
    ground (arith, distinct_after-no_repeats [] (n.locally_read_ids ++ marked_by a))

step-IsConsistent : (s : UiStore) (a : UiAction) → IsConsistent s → IsConsistent (step s a)
unfolding step
step-IsConsistent s (UiAction.layout_action a) c = ground (arith, c)
step-IsConsistent s (UiAction.sme_action a) c = ground (arith, c)
step-IsConsistent s (UiAction.team_action a) c = ground (arith, c)
step-IsConsistent s (UiAction.target_audience_action a) c = ground (arith, c)
step-IsConsistent s (notification_action a) c =
    ground (arith, c, on_notification-once a s.notification c.once)
step-IsConsistent s (UiAction.ai_generation_action a) c = ground (arith, c)
step-IsConsistent s (UiAction.tenant_settings_action a) c = ground (arith, c)

IsConsistent-initial : IsConsistent initial
IsConsistent-initial = ground arith

-- After any actions no error is shown during a generation; while a key is tested its status is
-- `testing` or `idle`, and a status `testing` means that it is tested; an error of a test is there
-- exactly if the status is `failed`; and no id is noted twice as read.
pub run-IsConsistent : (as_ : List UiAction) → IsConsistent (after initial as_)
unfolding after
run-IsConsistent as_ = go initial as_ IsConsistent-initial
  where
    go : (s : UiStore) (as_ : List UiAction) → IsConsistent s → IsConsistent (after s as_)
    go s [] c = c
    go s (a ∷ as_) c = go (step s a) as_ (step-IsConsistent s a c)

-- An action that does not clear the ids.
abbrev pub Keeps : UiAction → Type 0
Keeps (notification_action clear_locally_read) = ⊥
Keeps _ = Unit

is_read : String → UiStore → Bool
is_read id s = has_text_id id s.notification.locally_read_ids

step-is_read :
    (id : String) (s : UiStore) (a : UiAction)
    → Keeps a
    → is_read id s ≡ true
    → is_read id (step s a) ≡ true
unfolding step is_read
step-is_read id s (notification_action clear_locally_read) k h = elim k [ ]
step-is_read id s (notification_action (mark_locally_read ids)) k h = ground (
  arith,
  has_text_id-distinct_after id [] (s.notification.locally_read_ids ++ ids),
  has_text_id-append id s.notification.locally_read_ids ids,
)
step-is_read id s a k h = ground arith

-- An id that is marked as read, by itself or with others, stays so until the ids are cleared.
pub read_stays :
    (id : String) (ids : List String) (s : UiStore) (as_ : List UiAction)
    → has_text_id id ids ≡ true
    → All Keeps as_
    → has_text_id id
        (after s (notification_action (mark_locally_read ids) ∷ as_)).notification.locally_read_ids
      ≡ true
unfolding after is_read
read_stays id ids s as_ h k = go (step s (notification_action (mark_locally_read ids))) as_ k marked
  where
    marked : is_read id (step s (notification_action (mark_locally_read ids))) ≡ true
    marked =
        unfold is_read step in
        ground (
          arith,
          h,
          has_text_id-distinct_after id [] (s.notification.locally_read_ids ++ ids),
          has_text_id-append id s.notification.locally_read_ids ids,
        )

    go :
        (t : UiStore) (as_ : List UiAction)
        → All Keeps as_
        → is_read id t ≡ true
        → is_read id (after t as_) ≡ true
    go t [] k e = e
    go t (a ∷ as_) k e = go (step t a) as_ k.1 (step-is_read id t a k.0 e)
