-- ===== src/Radar.antt =====
-- backend/src/modules/radar: the feed of jobs.
pub mod Types
pub mod Ranking
pub mod Order
pub mod Laws
pub mod Before
mod Tests
