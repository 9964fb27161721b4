-- ===== src/Shared.antt =====
-- machines/shared: what the state machines of the frontend have in common.
pub mod Machine
pub mod Errors
pub mod Guards
pub mod Email
pub mod Telemetry
mod Context
mod Examples
