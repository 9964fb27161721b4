-- ===== src/Content.antt =====
-- lib/contentTransform.ts: AI-generated lessons become the course editor's blocks, and these the
-- format of the API.
pub mod Types
pub mod Transform
pub mod Course
pub mod Api
pub mod Escape
pub mod Flatten
pub mod Converts
mod Examples
