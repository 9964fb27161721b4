-- ===== src/Shared/Telemetry.antt =====
-- machines/shared/telemetry.ts: the telemetry that the machines' actions emit.
use mirai_app.Prelude.{ℕ, ◌-◌, String, Option, none, some, leb, nat_eq, if◌then◌else◌}
use mathlib.Core.Option
use mirai_app.Shared.Errors.{AuthError, AuthErrorCode}

-- The events of `AUTH_TELEMETRY` and `LMS_TELEMETRY` that the modelled machines emit.
pub data TelemetryName : Type 0 where
  login_started login_success login_failed logout_started logout_completed : TelemetryName
  registration_started registration_success registration_failed : TelemetryName
  invitation_viewed invitation_accepted invitation_failed : TelemetryName
  flow_started flow_completed flow_failed flow_expired : TelemetryName
  course_generation_started course_outline_generated course_outline_approved : TelemetryName
  course_outline_rejected course_lessons_generating course_generation_completed : TelemetryName
  course_generation_failed : TelemetryName
  sme_created sme_selected sme_ingestion_started sme_ingestion_completed : TelemetryName
  sme_ingestion_failed : TelemetryName
  component_edit_started component_regenerating component_saved component_edit_failed :
      TelemetryName

-- A difference of two clock readings, which is negative after the clock was set back.
pub data Span : Type 0 where
  ahead behind : ℕ → Span

abbrev pub span : ℕ → ℕ → Span
span now start = if leb start now then ahead (now - start) else behind (start - now)

-- `emitTelemetry`'s arguments.
pub record Emit : Type 0 where
  pub name : TelemetryName
  pub machine_id : String
  pub duration : Option Span
  pub error_code : Option AuthErrorCode
  pub error_message : Option String

-- `calculateDuration`: a start at 0 is falsy.
abbrev pub calculate_duration : ℕ → Option ℕ → Option Span
calculate_duration now none = none
calculate_duration now (some start) = if nat_eq start 0 then none else some (span now start)

-- `createTelemetryAction` and `createSuccessTelemetry`.
abbrev pub telemetry_action : String → TelemetryName → ℕ → Option ℕ → Emit
telemetry_action machine name now started = record {
  name = name;
  machine_id = machine;
  duration = calculate_duration now started;
  error_code = none;
  error_message = none;
}

-- `createFailureTelemetry`.
abbrev pub failure_telemetry : String → TelemetryName → ℕ → Option ℕ → Option AuthError → Emit
failure_telemetry machine name now started error = record {
  name = name;
  machine_id = machine;
  duration = calculate_duration now started;
  error_code = Option.map (λ (e : AuthError). e.code) error;
  error_message = Option.map (λ (e : AuthError). e.message) error;
}
