-- ===== src/Domain.antt =====
-- packages/domain/src: the pure rules of the booking system, one module for each file there.
pub mod Status
pub mod Time
pub mod Money
pub mod Cancellation
pub mod Pricing
pub mod Slots
