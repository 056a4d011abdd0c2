-- ===== src/Tracker.antt =====
-- backend/src/modules/tracker: the application tracker.
pub mod Types
mod Tests
pub mod Transitions
pub mod Queries
pub mod Create
pub mod Update
pub mod Invariant
pub mod Requests
pub mod Locking
pub mod Success
pub mod Retracking
pub mod Isolation
pub mod Cursor
pub mod Listing
pub mod Walk
mod CursorTests
