-- ===== src/UiStore.antt =====
-- store/zustand/index.ts: the actions of the store, each as `set` merges it: an action of a slice
-- replaces that slice.
pub mod Data
pub mod Consistent
mod Examples
use mirai_app.Prelude.{
  ℕ, String, Bool, true, false, not, ◌||◌, Option, none, some, List, [], ◌∷◌, ◌++◌, str_eq,
  if◌then◌else◌,
}
use mirai_app.UiStore.Data.{
  SortOrder, asc, desc, SortBy, created_at, SmeFilterScope, SmeFilterStatus, ExperienceLevel,
  GenerationType, ApiKeyTestStatus, UsageTimeRange, Layout, SmeUi, TeamUi, TargetAudienceUi,
  NotificationUi, AiGenerationUi, TenantSettingsUi, UiStore, initial_team, initial_ai_generation,
}

abbrev flipped : SortOrder → SortOrder
flipped asc = desc
flipped desc = asc

unfoldable pub has_text_id : String → List String → Bool
has_text_id id [] = false
has_text_id id (i ∷ is) = str_eq i id || has_text_id id is

-- `[...new Set(ids)]`: each id once, where it comes first.
unfoldable pub distinct_after : List String → List String → List String
unfolding has_text_id
distinct_after seen [] = []
distinct_after seen (i ∷ is) =
    let rest = distinct_after (i ∷ seen) is in
    let again = distinct_after seen is in if has_text_id i seen then again else i ∷ rest

abbrev pub distinct : List String → List String
distinct ids = distinct_after [] ids

pub data LayoutAction : Type 0 where
  toggle_sidebar toggle_mobile_sidebar close_mobile_sidebar open_mobile_sidebar : LayoutAction
  set_global_loading : Bool → LayoutAction
  set_global_error : Option String → LayoutAction

unfoldable pub on_layout : LayoutAction → Layout → Layout
on_layout toggle_sidebar s = record s { sidebar_open = not s.sidebar_open }
on_layout toggle_mobile_sidebar s = record s { mobile_sidebar_open = not s.mobile_sidebar_open }
on_layout close_mobile_sidebar s = record s { mobile_sidebar_open = false }
on_layout open_mobile_sidebar s = record s { mobile_sidebar_open = true }
on_layout (set_global_loading loading) s = record s { global_loading = loading }
on_layout (set_global_error e) s = record s { global_error = e }

pub data SmeAction : Type 0 where
  clear_sme_selection open_sme_create_modal close_sme_create_modal : SmeAction
  open_sme_task_modal close_sme_task_modal open_sme_upload_modal : SmeAction
  close_sme_upload_modal toggle_sme_sort_order reset_sme_filters : SmeAction
  select_sme : Option String → SmeAction
  select_task : Option String → SmeAction
  set_sme_sort_by : SortBy → SmeAction
  set_sme_sort_order : SortOrder → SmeAction
  set_sme_filter_scope : SmeFilterScope → SmeAction
  set_sme_filter_status : SmeFilterStatus → SmeAction

unfoldable pub on_sme : SmeAction → SmeUi → SmeUi
on_sme (select_sme id) s = record s { selected_sme_id = id; selected_task_id = none }
on_sme (select_task id) s = record s { selected_task_id = id }
on_sme clear_sme_selection s = record s { selected_sme_id = none; selected_task_id = none }
on_sme open_sme_create_modal s = record s { is_create_modal_open = true }
on_sme close_sme_create_modal s = record s { is_create_modal_open = false }
on_sme open_sme_task_modal s = record s { is_task_modal_open = true }
on_sme close_sme_task_modal s = record s { is_task_modal_open = false }
on_sme open_sme_upload_modal s = record s { is_upload_modal_open = true }
on_sme close_sme_upload_modal s = record s { is_upload_modal_open = false }
on_sme (set_sme_sort_by b) s = record s { sort_by = b }
on_sme (set_sme_sort_order o) s = record s { sort_order = o }
on_sme toggle_sme_sort_order s = record s { sort_order = flipped s.sort_order }
on_sme (set_sme_filter_scope f) s = record s { filter_scope = f }
on_sme (set_sme_filter_status f) s = record s { filter_status = f }
on_sme reset_sme_filters s = record s {
  sort_by = created_at;
  sort_order = desc;
  filter_scope = SmeFilterScope.all;
  filter_status = SmeFilterStatus.all;
}

pub data TeamAction : Type 0 where
  clear_team_selection close_team_detail_view open_team_create_modal : TeamAction
  close_team_create_modal open_team_edit_modal close_team_edit_modal : TeamAction
  open_add_member_modal close_add_member_modal reset_team_state : TeamAction
  select_team : Option String → TeamAction
  open_team_detail_view : String → TeamAction

unfoldable pub on_team : TeamAction → TeamUi → TeamUi
on_team (select_team id) s = record s { selected_team_id = id }
on_team clear_team_selection s = record s { selected_team_id = none; is_detail_view_open = false }
on_team (open_team_detail_view id) s = record s {
  selected_team_id = some id;
  is_detail_view_open = true;
}
on_team close_team_detail_view s = record s { is_detail_view_open = false }
on_team open_team_create_modal s = record s { is_create_modal_open = true }
on_team close_team_create_modal s = record s { is_create_modal_open = false }
on_team open_team_edit_modal s = record s { is_edit_modal_open = true }
on_team close_team_edit_modal s = record s { is_edit_modal_open = false }
on_team open_add_member_modal s = record s { is_add_member_modal_open = true }
on_team close_add_member_modal s = record s { is_add_member_modal_open = false }
on_team reset_team_state s = initial_team

pub data TargetAudienceAction : Type 0 where
  clear_template_selection open_ta_create_modal close_ta_create_modal : TargetAudienceAction
  close_ta_edit_modal toggle_ta_sort_order reset_ta_filters : TargetAudienceAction
  select_template : Option String → TargetAudienceAction
  open_ta_edit_modal : String → TargetAudienceAction
  set_ta_sort_by : SortBy → TargetAudienceAction
  set_ta_sort_order : SortOrder → TargetAudienceAction
  set_ta_filter_experience_level : ExperienceLevel → TargetAudienceAction

unfoldable pub on_target_audience : TargetAudienceAction → TargetAudienceUi → TargetAudienceUi
on_target_audience (select_template id) s = record s { selected_template_id = id }
on_target_audience clear_template_selection s = record s { selected_template_id = none }
on_target_audience open_ta_create_modal s = record s { is_create_modal_open = true }
on_target_audience close_ta_create_modal s = record s { is_create_modal_open = false }
on_target_audience (open_ta_edit_modal id) s = record s {
  selected_template_id = some id;
  is_edit_modal_open = true;
}
on_target_audience close_ta_edit_modal s = record s { is_edit_modal_open = false }
on_target_audience (set_ta_sort_by b) s = record s { sort_by = b }
on_target_audience (set_ta_sort_order o) s = record s { sort_order = o }
on_target_audience toggle_ta_sort_order s = record s { sort_order = flipped s.sort_order }
on_target_audience (set_ta_filter_experience_level l) s = record s { filter_experience_level = l }
on_target_audience reset_ta_filters s = record s {
  sort_by = created_at;
  sort_order = desc;
  filter_experience_level = ExperienceLevel.all;
}

pub data NotificationAction : Type 0 where
  open_notification_panel close_notification_panel toggle_notification_panel : NotificationAction
  toggle_show_unread_only mark_all_locally_read clear_locally_read : NotificationAction
  set_show_unread_only : Bool → NotificationAction
  mark_locally_read : List String → NotificationAction

unfoldable pub on_notification : NotificationAction → NotificationUi → NotificationUi
unfolding distinct_after
on_notification open_notification_panel s = record s { is_panel_open = true }
on_notification close_notification_panel s = record s { is_panel_open = false }
on_notification toggle_notification_panel s = record s { is_panel_open = not s.is_panel_open }
on_notification (set_show_unread_only v) s = record s { show_unread_only = v }
on_notification toggle_show_unread_only s = record s { show_unread_only = not s.show_unread_only }
on_notification (mark_locally_read ids) s = record s {
  locally_read_ids = distinct (s.locally_read_ids ++ ids);
}
on_notification mark_all_locally_read s = s
on_notification clear_locally_read s = record s { locally_read_ids = [] }

pub data AiGenerationAction : Type 0 where
  complete_generation reset_generation : AiGenerationAction
  start_generation : Option GenerationType → AiGenerationAction
  update_generation_progress : ℕ → String → AiGenerationAction
  set_generation_error : String → AiGenerationAction

unfoldable pub on_ai_generation : AiGenerationAction → AiGenerationUi → AiGenerationUi
on_ai_generation (start_generation t) s = record {
  is_generating = true;
  generation_type = t;
  progress = 0;
  current_message = "Initializing AI generation...";
  error = none;
}
on_ai_generation (update_generation_progress p m) s = record s { progress = p; current_message = m }
on_ai_generation complete_generation s = record s {
  is_generating = false;
  generation_type = none;
  progress = 100;
  current_message = "Generation complete!";
}
on_ai_generation (set_generation_error e) s = record s {
  is_generating = false;
  error = some e;
  progress = 0;
}
on_ai_generation reset_generation s = initial_ai_generation

pub data TenantSettingsAction : Type 0 where
  open_api_key_modal close_api_key_modal start_api_key_test : TenantSettingsAction
  api_key_test_success reset_api_key_test toggle_usage_expanded : TenantSettingsAction
  api_key_test_failed : String → TenantSettingsAction
  set_usage_time_range : UsageTimeRange → TenantSettingsAction

unfoldable pub on_tenant_settings : TenantSettingsAction → TenantSettingsUi → TenantSettingsUi
on_tenant_settings open_api_key_modal s = record s {
  is_api_key_modal_open = true;
  api_key_test_status = ApiKeyTestStatus.idle;
  api_key_test_error = none;
}
on_tenant_settings close_api_key_modal s = record s {
  is_api_key_modal_open = false;
  api_key_test_status = ApiKeyTestStatus.idle;
  api_key_test_error = none;
}
on_tenant_settings start_api_key_test s = record s {
  is_testing_api_key = true;
  api_key_test_status = ApiKeyTestStatus.testing;
  api_key_test_error = none;
}
on_tenant_settings api_key_test_success s = record s {
  is_testing_api_key = false;
  api_key_test_status = ApiKeyTestStatus.success;
  api_key_test_error = none;
}
on_tenant_settings (api_key_test_failed e) s = record s {
  is_testing_api_key = false;
  api_key_test_status = ApiKeyTestStatus.failed;
  api_key_test_error = some e;
}
on_tenant_settings reset_api_key_test s = record s {
  is_testing_api_key = false;
  api_key_test_status = ApiKeyTestStatus.idle;
  api_key_test_error = none;
}
on_tenant_settings toggle_usage_expanded s = record s {
  is_usage_expanded = not s.is_usage_expanded;
}
on_tenant_settings (set_usage_time_range r) s = record s { usage_time_range = r }

pub data UiAction : Type 0 where
  layout_action : LayoutAction → UiAction
  sme_action : SmeAction → UiAction
  team_action : TeamAction → UiAction
  target_audience_action : TargetAudienceAction → UiAction
  notification_action : NotificationAction → UiAction
  ai_generation_action : AiGenerationAction → UiAction
  tenant_settings_action : TenantSettingsAction → UiAction

unfoldable pub step : UiStore → UiAction → UiStore
unfolding on_layout on_sme on_team on_target_audience on_notification on_ai_generation
    on_tenant_settings
step s (layout_action a) = record s { layout = on_layout a s.layout }
step s (sme_action a) = record s { sme = on_sme a s.sme }
step s (team_action a) = record s { team = on_team a s.team }
step s (target_audience_action a) = record s {
  target_audience = on_target_audience a s.target_audience;
}
step s (notification_action a) = record s { notification = on_notification a s.notification }
step s (ai_generation_action a) = record s { ai_generation = on_ai_generation a s.ai_generation }
step s (tenant_settings_action a) = record s {
  tenant_settings = on_tenant_settings a s.tenant_settings;
}
