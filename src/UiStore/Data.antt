-- ===== src/UiStore/Data.antt =====
-- store/zustand/index.ts: the state of the interface, slice by slice.
use mirai_app.Prelude.{ℕ, String, Bool, true, false, Option, none, List, []}

pub data SortOrder : Type 0 where
  asc desc : SortOrder

-- `SMESortBy` and `TargetAudienceSortBy`.
pub data SortBy : Type 0 where
  by_name created_at updated_at : SortBy

pub data SmeFilterScope : Type 0 where
  all global team : SmeFilterScope

pub data SmeFilterStatus : Type 0 where
  all draft active archived : SmeFilterStatus

pub data ExperienceLevel : Type 0 where
  all beginner intermediate advanced : ExperienceLevel

-- Without the `null`, which is a missing value.
pub data GenerationType : Type 0 where
  objectives personas content blocks : GenerationType

pub data ApiKeyTestStatus : Type 0 where
  idle testing success failed : ApiKeyTestStatus

pub data UsageTimeRange : Type 0 where
  days7 days30 days90 all : UsageTimeRange

pub record Layout : Type 0 where
  pub sidebar_open : Bool
  pub mobile_sidebar_open : Bool
  pub global_loading : Bool
  pub global_error : Option String

pub record SmeUi : Type 0 where
  pub selected_sme_id : Option String
  pub selected_task_id : Option String
  pub is_create_modal_open : Bool
  pub is_task_modal_open : Bool
  pub is_upload_modal_open : Bool
  pub sort_by : SortBy
  pub sort_order : SortOrder
  pub filter_scope : SmeFilterScope
  pub filter_status : SmeFilterStatus

pub record TeamUi : Type 0 where
  pub selected_team_id : Option String
  pub is_create_modal_open : Bool
  pub is_edit_modal_open : Bool
  pub is_add_member_modal_open : Bool
  pub is_detail_view_open : Bool

pub record TargetAudienceUi : Type 0 where
  pub selected_template_id : Option String
  pub is_create_modal_open : Bool
  pub is_edit_modal_open : Bool
  pub sort_by : SortBy
  pub sort_order : SortOrder
  pub filter_experience_level : ExperienceLevel

pub record NotificationUi : Type 0 where
  pub is_panel_open : Bool
  pub show_unread_only : Bool
  pub locally_read_ids : List String

pub record AiGenerationUi : Type 0 where
  pub is_generating : Bool
  pub generation_type : Option GenerationType
  pub progress : ℕ
  pub current_message : String
  pub error : Option String

pub record TenantSettingsUi : Type 0 where
  pub is_api_key_modal_open : Bool
  pub is_testing_api_key : Bool
  pub api_key_test_status : ApiKeyTestStatus
  pub api_key_test_error : Option String
  pub is_usage_expanded : Bool
  pub usage_time_range : UsageTimeRange

-- The store without its actions.
pub record UiStore : Type 0 where
  pub layout : Layout
  pub sme : SmeUi
  pub team : TeamUi
  pub target_audience : TargetAudienceUi
  pub notification : NotificationUi
  pub ai_generation : AiGenerationUi
  pub tenant_settings : TenantSettingsUi

abbrev pub initial_sme : SmeUi
initial_sme = record {
  selected_sme_id = none;
  selected_task_id = none;
  is_create_modal_open = false;
  is_task_modal_open = false;
  is_upload_modal_open = false;
  sort_by = created_at;
  sort_order = desc;
  filter_scope = SmeFilterScope.all;
  filter_status = SmeFilterStatus.all;
}

abbrev pub initial_team : TeamUi
initial_team = record {
  selected_team_id = none;
  is_create_modal_open = false;
  is_edit_modal_open = false;
  is_add_member_modal_open = false;
  is_detail_view_open = false;
}

abbrev pub initial_target_audience : TargetAudienceUi
initial_target_audience = record {
  selected_template_id = none;
  is_create_modal_open = false;
  is_edit_modal_open = false;
  sort_by = created_at;
  sort_order = desc;
  filter_experience_level = ExperienceLevel.all;
}

abbrev pub initial_notification : NotificationUi
initial_notification = record {
  is_panel_open = false;
  show_unread_only = false;
  locally_read_ids = [];
}

abbrev pub initial_ai_generation : AiGenerationUi
initial_ai_generation = record {
  is_generating = false;
  generation_type = none;
  progress = 0;
  current_message = "";
  error = none;
}

abbrev pub initial_tenant_settings : TenantSettingsUi
initial_tenant_settings = record {
  is_api_key_modal_open = false;
  is_testing_api_key = false;
  api_key_test_status = ApiKeyTestStatus.idle;
  api_key_test_error = none;
  is_usage_expanded = false;
  usage_time_range = UsageTimeRange.days30;
}

abbrev pub initial : UiStore
initial = record {
  layout = record {
    sidebar_open = true;
    mobile_sidebar_open = false;
    global_loading = false;
    global_error = none;
  };
  sme = initial_sme;
  team = initial_team;
  target_audience = initial_target_audience;
  notification = initial_notification;
  ai_generation = initial_ai_generation;
  tenant_settings = initial_tenant_settings;
}
