-- ===== src/Alerts.antt =====
-- The alerts of backend/src/modules/alerts: the outbox of the new jobs, and their evaluation.
pub mod Outbox
pub mod Types
pub mod Criteria
pub mod Evaluation
pub mod Service
mod Tests
mod EvaluationTests
mod ServiceTests
