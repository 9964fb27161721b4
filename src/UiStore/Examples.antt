-- ===== src/UiStore/Examples.antt =====
-- Actions on a new store.
use mirai_app.Prelude.{◌≡◌, refl, some, List, [], ◌∷◌}
use mirai_app.UiStore.Data.{GenerationType, ApiKeyTestStatus, initial}
use mirai_app.UiStore.{
  UiAction, notification_action, tenant_settings_action, ai_generation_action, mark_locally_read,
  start_api_key_test, close_api_key_modal, start_generation, set_generation_error,
  on_tenant_settings, distinct_after, step,
}
use mirai_app.UiStore.Consistent.{IsConsistent, after, run-IsConsistent}

abbrev some_actions : List UiAction
some_actions =
    notification_action (mark_locally_read ("n1" ∷ "n2" ∷ "n1" ∷ []))
    ∷ tenant_settings_action start_api_key_test
    ∷ tenant_settings_action close_api_key_modal
    ∷ ai_generation_action (start_generation (some GenerationType.personas))
    ∷ ai_generation_action (set_generation_error "no quota")
    ∷ []

notes_once : (after initial some_actions).notification.locally_read_ids ≡ "n1" ∷ "n2" ∷ []
unfolding after step distinct_after
notes_once = refl

-- A test of the key that runs while the modal is closed has the status `idle`.
tests_idle :
    (on_tenant_settings close_api_key_modal
      (on_tenant_settings start_api_key_test initial.tenant_settings)).api_key_test_status
    ≡ ApiKeyTestStatus.idle
unfolding on_tenant_settings
tests_idle = refl

run-IsConsistent_example : IsConsistent (after initial some_actions)
run-IsConsistent_example = run-IsConsistent some_actions
