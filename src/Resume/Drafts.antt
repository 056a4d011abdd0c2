-- ===== src/Resume/Drafts.antt =====
-- backend/src/modules/resumes/review/resume-review.service.ts: the drafts under review, and the
-- updates that their owners send.
pub mod Types
pub mod Service
pub mod Halves
pub mod Laws
mod Tests
