-- ===== src/Auth.antt =====
-- backend/src/auth: accounts, sessions, recovery, and the guard of the requests.
pub mod Types
pub mod Sessions
pub mod Login
pub mod Recovery
pub mod Families
pub mod Reuse
pub mod Requests
pub mod Keeping
pub mod Others
pub mod OneLive
pub mod Ended
pub mod Admins
mod Tests
mod RaceTests
