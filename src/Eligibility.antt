-- ===== src/Eligibility.antt =====
-- backend/src/modules/eligibility: the Eligibility Shield.
pub mod Types
pub mod Tests
pub mod Timezone
pub mod Dimensions
pub mod Evaluator
pub mod Laws
pub mod TimezoneLaws
