-- ===== src/Booking/Lifecycle.antt =====
-- reservations.service.ts, the calls that move a reservation on: `confirm`, `markPaid`, `markNoShow`,
-- `expireHold`, `releaseReservation`, and the two that the payment provider's webhook calls.
pub mod Freed
pub mod Kept
pub mod Moves
pub mod Replay
pub mod Webhook
use playslot.Prelude.{
  ℕ, Bool, true, false, not, ◌&&◌, ◌||◌, String, Option, none, some, List, [], ◌∷◌, map, find, ltb,
  ◌==◌, if◌then◌else◌,
}
use playslot.Prelude.Result.{ok, err}
use playslot.Domain.Time.{Instant}
use playslot.Domain.Status.{ReservationStatus, status_eq}
use playslot.Payments.{upsert_payment}
use playslot.Store.Tables.{Store, Reservation, Payment, PaymentStatus, Effect}
use playslot.Store.Action.{
  Action, app_exception, not_found, policy_violation, ◌>>=◌, ◌>>◌, pure, gets, or_throw, throw_if,
  modify, transaction, emit, audit, for_some,
}
use playslot.Store.Rows.{find_reservation, set_status}
use playslot.Booking.Slot.{Env}
use playslot.Booking.Notices.{send, confirmation_mails, receipt_mails, no_show_mails}

abbrev pub of_club : ℕ → Option Reservation → Option Reservation
of_club club_id none = none
of_club club_id (some r) = if r.club_id == club_id then some r else none

-- `findFirst({ where: { id, clubId } })`, where the id is the primary key.
unfoldable pub find_of_club : ℕ → ℕ → Store → Option Reservation
find_of_club club_id id s = of_club club_id (find_reservation id s.reservations)

abbrev pub to_confirmed : Reservation → Reservation
to_confirmed r = record r { status = ReservationStatus.confirmed; hold_expires_at = none }

abbrev pub to_cancelled : String → Reservation → Reservation
to_cancelled reason r = record r {
  status = ReservationStatus.cancelled;
  cancellation_reason = some reason;
}

abbrev pub to_no_show : Reservation → Reservation
to_no_show r = record r { status = ReservationStatus.no_show }

-- `payment.updateMany({ where: { reservationId }, data })`
unfoldable pub update_payments : ℕ → (Payment → Payment) → List Payment → List Payment
update_payments id f payments =
    map (λ (p : Payment). if p.reservation_id == id then f p else p) payments

abbrev pub set_payments : ℕ → (Payment → Payment) → Action (Unit {0})
set_payments id f = modify (λ s. record s { payments = update_payments id f s.payments })

-- An id and the status that the answer names.
abbrev pub Answer : Type 0
Answer = ℕ × ReservationStatus

unfoldable pub confirm : Env → ℕ → ℕ → ℕ → Action Answer
confirm env club_id id staff_user_id = do
  r ← or_throw (← gets (find_of_club club_id id)) (app_exception not_found "")
  if status_eq r.status ReservationStatus.confirmed then pure (r.id, r.status) else do
    throw_if (not (status_eq r.status ReservationStatus.pending_approval))
        (app_exception policy_violation "not_awaiting_approval")
    set_status id to_confirmed
    audit staff_user_id "reservation.confirmed" id
    emit (Effect.availability_changed club_id)
    send (confirmation_mails env id)
    pure (id, ReservationStatus.confirmed)

abbrev captured : Instant → Payment → Payment
captured now p = record p { status = PaymentStatus.captured; captured_at = some now }

unfoldable pub mark_paid : Instant → ℕ → ℕ → ℕ → Action ℕ
mark_paid now club_id id staff_user_id = do
  r ← or_throw (← gets (find_of_club club_id id)) (app_exception not_found "")
  modify λ s. record s {
    payments =
        upsert_payment id (captured now)
          (record {
            reservation_id = id;
            provider = "manual";
            provider_ref = none;
            amount_cents = r.price_cents;
            currency = r.currency;
            status = PaymentStatus.captured;
            captured_at = some now;
            refunded_at = none;
          })
          s.payments;
  }
  audit staff_user_id "reservation.marked_paid" id
  send (receipt_mails id)
  pure id

unfoldable pub mark_no_show : Instant → ℕ → ℕ → ℕ → Action Answer
mark_no_show now club_id id staff_user_id = do
  r ← or_throw (← gets (find_of_club club_id id)) (app_exception not_found "")
  throw_if (not (status_eq r.status ReservationStatus.confirmed))
      (app_exception policy_violation "not_confirmed")
  throw_if (ltb now r.starts_at) (app_exception policy_violation "not_started")
  set_status id to_no_show
  audit staff_user_id "reservation.no_show" id
  emit (Effect.availability_changed club_id)
  send (no_show_mails id)
  pure (id, ReservationStatus.no_show)

-- `r.holdExpiresAt && r.holdExpiresAt > new Date()`
abbrev pub still_held : Instant → Option Instant → Bool
still_held now none = false
still_held now (some t) = ltb now t

-- The guards of `expireHold`, past which it cancels.
abbrev pub may_expire : Instant → Reservation → Bool
may_expire now r =
    (status_eq r.status ReservationStatus.hold
      || status_eq r.status ReservationStatus.pending_payment)
    && not (still_held now r.hold_expires_at)

unfoldable pub expire_hold : Instant → ℕ → Action (Unit {0})
expire_hold now id = do
  found ← gets (λ s. find_reservation id s.reservations)
  for_some found λ r. if not (may_expire now r) then pure tt else do
    set_status id (to_cancelled "hold_expired")
    emit (Effect.availability_changed r.club_id)

unfoldable pub release_reservation : ℕ → String → Action (Unit {0})
release_reservation id reason = do
  found ← gets (λ s. find_reservation id s.reservations)
  for_some found λ r.
      if status_eq r.status ReservationStatus.cancelled
      then pure tt
      else do set_status id (to_cancelled reason); emit (Effect.availability_changed r.club_id)

abbrev pub paid_by : Instant → String → Payment → Payment
paid_by now payment_ref p = record p {
  status = PaymentStatus.captured;
  provider_ref = some payment_ref;
  captured_at = some now;
}

unfoldable pub confirm_paid_reservation : Env → Instant → ℕ → String → Action (Unit {0})
confirm_paid_reservation env now id payment_ref = do
  found ← gets (λ s. find_reservation id s.reservations)
  for_some found λ r.
      if not (status_eq r.status ReservationStatus.pending_payment) then pure tt else do
        transaction (set_status id to_confirmed >> set_payments id (paid_by now payment_ref))
        emit (Effect.availability_changed r.club_id)
        send (confirmation_mails env id)

abbrev failed : Payment → Payment
failed p = record p { status = PaymentStatus.failed }

unfoldable pub fail_payment : ℕ → Action (Unit {0})
fail_payment id = do
  found ← gets (λ s. find_reservation id s.reservations)
  for_some found λ r.
      if not (status_eq r.status ReservationStatus.pending_payment) then pure tt else do
        transaction (set_status id (to_cancelled "payment_failed") >> set_payments id failed)
        emit (Effect.availability_changed r.club_id)
