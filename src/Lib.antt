-- ===== src/Lib.antt =====
-- Verification of the booking system: clubs rent out courts and coaches by the slot; a reservation
-- takes rows of resources for a half-open period, and moves through a table of statuses.
--
-- The parts, with their files in this library:
--  * Domain: packages/domain/src, the pure rules. Status (reservation.ts), Time (time.ts), Money
--    (money.ts), Cancellation (cancellation.ts), Pricing (pricing.ts), Slots (availability.ts). A
--    thrown error is the `err` of a result. Time.Calendar is JavaScript's `Date` on the texts
--    "YYYY-MM-DD", with the error of `toISOString` for a month or a day that it does not take.
--  * Store: packages/db/prisma/schema.prisma and the migrations. Tables holds the rows of the tables
--    that the modelled services use; Action is a service call, a function of the store that may
--    throw; Rows has the statements on reservations and resource rows with the exclusion constraint
--    (20260905190810_reservation_exclude_constraint) and the trigger that keeps `isActive` in step
--    with the status (20261011120100_booking_approval).
--  * Memberships, Standing, Payments: apps/api/src/memberships/memberships.service.ts,
--    apps/api/src/common/standing.ts, apps/api/src/payments/payments.service.ts.
--  * Booking: apps/api/src/reservations/reservations.service.ts. Slot is resolveSlot and the prices;
--    Transaction is runBookingTransaction; Create has createReservation, createManual, createBlock
--    and createCoachBlockingReservation; Lifecycle has confirm, markPaid, markNoShow, expireHold,
--    releaseReservation, confirmPaidReservation, failPayment and (Webhook) handleWebhook; Cancel and
--    Reschedule are the calls of those names; Read has getOne and listMine, Csv has exportCsv; Notices
--    says who gets a mail. Stable says what all these calls keep. System takes them, with those of group
--    sessions, suspensions and removals, as the steps of one system.
--  * Availability: apps/api/src/availability/availability.service.ts, what a club offers on a day; it
--    feeds Domain.Slots with the store's rules, closures and reservations. Booked takes what it answers
--    to createReservation.
--  * Prices: apps/api/src/pricing/pricing.service.ts, the price rules of a club and (Preview) the preview.
--  * GroupSessions: apps/api/src/group-sessions/group-sessions.service.ts. Roster is the abstract view
--    of a session's registrations.
--  * Feedback: apps/api/src/feedback/feedback.service.ts, submit and (Mine) listMine. Opinions is the
--    table of feedback as a map.
--  * Moderation: apps/api/src/moderation/moderation.service.ts, suspend, reinstate, verifyEmail,
--    standing and (Removal) remove; the texts that go to the audit log are left out.
--  * Tests has concrete inputs.
--
-- How they interact: a call of Booking reads the store, asks Domain for slots, prices, refunds and
-- statuses, Memberships for a discount, Standing for the account; it writes reservations and rows by
-- Store.Rows in a transaction, and then emits effects (live updates, mails, jobs, refunds).
--
-- Conventions. Numbers are natural numbers; prices, percentages and differences are integers. An
-- instant is its milliseconds since 1970. A `null` or `undefined` is `none`. E-mail addresses,
-- dates and currency codes are lists of character codes. Calls run one after another, each to its end
-- (the row locks of the transaction stand for this); a call reads the clock once, as the argument
-- `now`. A transaction that throws leaves the store as it was; what a call wrote outside one stays.
-- Sending a mail or a refund never changes the store, and its failure is caught, so it is an effect.
--
-- Parameters, which stand for code outside the repository: `Zone` (date-fns-tz in one time zone),
-- `month_day` in `Env` (its format "MMdd"), `name_order` in `Env` (the database's order of names),
-- `Dates` (JavaScript's reading and printing of a date in UTC), `Provider` (the payment provider), and what Turnstile and
-- the check of a webhook's signature answer. No law is assumed of them.
--
-- Fuel: the loop over the start minutes of a window (availability.ts) runs on `end + 1` steps, which
-- is enough because each round advances by a positive step; a loop that uses them up before its test
-- fails answers `out_of_fuel`, an error that is the model's own. The digits of a number (exportCsv) run on
-- more steps than it has digits. No other definition has fuel.
--
-- Not modelled: pages and components of apps/web, mail texts, the queue's and the framework's glue,
-- authentication, what a club sees of its feedback, and the services for statistics, programs,
-- resources, clubs and coaching, which are listed with their reasons in the project's manifest. Calls do not overlap in time, so a race
-- between two of them that the database does not stop is not seen.
pub mod Prelude
pub mod Domain
pub mod Store
pub mod Memberships
pub mod GroupSessions
pub mod Feedback
pub mod Standing
pub mod Payments
pub mod Prices
pub mod Availability
pub mod Booking
pub mod Moderation
pub mod Tests
