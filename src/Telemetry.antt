-- ===== src/Telemetry.antt =====
-- pkg/internal/telemetry: what is aggregated between two submissions, and how it is submitted.
pub mod Events
pub mod Summaries
pub mod Examples
pub mod Shapes
pub mod Submitter
pub mod Submission
