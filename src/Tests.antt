-- ===== src/Tests.antt =====
-- Concrete inputs, and the theorems at them.
pub mod Fixtures
pub mod Rules
pub mod Days
pub mod Courts
pub mod Bookings
pub mod Moves
pub mod Sessions
pub mod Ratings
pub mod Removals
pub mod Offers
pub mod Reports
