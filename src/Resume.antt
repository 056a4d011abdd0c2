-- ===== src/Resume.antt =====
-- backend/src/modules/resumes/processing: the life of an uploaded resume, from its verification to
-- the draft that its owner reviews.
pub mod Types
mod Tests
pub mod Verification
pub mod Extraction
pub mod Steps
pub mod Safety
pub mod Sound
pub mod Leases
pub mod Outcomes
pub mod Review
pub mod Drafts
