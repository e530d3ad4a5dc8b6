-- ===== src/Booking.antt =====
-- apps/api/src/reservations/reservations.service.ts, hold-queue.service.ts and
-- apps/api/src/payments/payments.service.ts. A call takes the time `now` of the clock, which the
-- code reads several times in a call.
pub mod Slot
pub mod Stable
pub mod Notices
pub mod Transaction
pub mod Create
pub mod Lifecycle
pub mod Cancel
pub mod Reschedule
pub mod Read
pub mod Csv
pub mod System
