-- ===== src/Booking/Cancel.antt =====
-- reservations.service.ts, `cancel`.
pub mod Moves
pub mod Outcome
use playslot.Prelude.{
  ℕ, Bool, true, false, not, ◌&&◌, String, Option, none, some, List, [], ◌∷◌, any, find, ◌==◌,
  if◌then◌else◌,
}
use playslot.Prelude.Int.{ℤ, pos, ltb_ℤ, leb_ℤ}
use playslot.Prelude.Result.{Result, ok, err}
use playslot.Domain.Time.{Instant}
use playslot.Domain.Status.{ReservationStatus, includes}
use playslot.Domain.Cancellation.{
  RefundTier, RefundResult, RefundError, compute_refund, hours_until,
}
use playslot.Store.Tables.{
  Store, Role, ClubMember, CancellationPolicy, Reservation, ReservationType, Payment, PaymentStatus,
  Effect,
}
use playslot.Store.Action.{
  Action, app_exception, refund_error, not_found, forbidden, policy_violation, ◌>>=◌, ◌>>◌, pure,
  gets, or_throw, throw_if, transaction, emit, audit, for_some,
}
use playslot.Store.Rows.{find_reservation, set_status}
use playslot.Booking.Notices.{send, is_staff_role, cancellation_mails}
use playslot.Booking.Lifecycle.{to_cancelled, set_payments}

abbrev is_platform_admin : Role → Bool
is_platform_admin Role.platform_admin = true
is_platform_admin r = false

unfoldable pub is_club_staff : ℕ → ℕ → List Role → Store → Bool
is_club_staff club_id user_id roles s =
    if any is_platform_admin roles
    then true
    else any
        (λ (m : ClubMember).
          m.club_id == club_id && (m.user_id == user_id && (m.active && is_staff_role m.role)))
        s.members

-- `['HOLD', 'PENDING_PAYMENT', 'PENDING_APPROVAL', 'CONFIRMED']`
abbrev pub open_statuses : List ReservationStatus
open_statuses =
    ReservationStatus.hold ∷ ReservationStatus.pending_payment ∷ ReservationStatus.pending_approval
    ∷ ReservationStatus.confirmed ∷ []

-- `a === b`, of the two types that have a policy.
abbrev pub same_type : ReservationType → ReservationType → Bool
same_type ReservationType.court ReservationType.court = true
same_type ReservationType.lesson ReservationType.lesson = true
same_type a b = false

abbrev tiers_of : Option CancellationPolicy → List RefundTier
tiers_of none = []
tiers_of (some p) = p.tiers

abbrev pub refunded_cents : Result RefundError RefundResult → Action ℤ
refunded_cents (ok x) s = (ok x.refund_cents, s)
refunded_cents (err e) s = (err refund_error, s)

-- The club's tiers for the type of the reservation.
abbrev pub policy_tiers : Reservation → Store → List RefundTier
policy_tiers r s = tiers_of (
    find (λ (p : CancellationPolicy). p.club_id == r.club_id && same_type p.applies_to r.type)
      s.policies)

unfoldable pub policy_refund : Instant → Reservation → Action ℤ
policy_refund now r = if not (same_type r.type r.type) then pure (pos 0) else do
  tiers ← gets (policy_tiers r)
  refunded_cents (compute_refund tiers (hours_until r.starts_at now) r.price_cents)

abbrev pub payment_of : ℕ → Store → Option Payment
payment_of id s = find (λ (p : Payment). p.reservation_id == id) s.payments

abbrev pub is_captured : PaymentStatus → Bool
is_captured PaymentStatus.captured = true
is_captured s = false

-- `refundCents > 0 && r.payment?.status === 'CAPTURED'`
abbrev pub will_refund : ℤ → Option Payment → Bool
will_refund refund_cents none = false
will_refund refund_cents (some p) = ltb_ℤ (pos 0) refund_cents && is_captured p.status

abbrev pub to_refunded : Instant → ℤ → Payment → Payment
to_refunded now refund_cents p = record p {
  status =
      if leb_ℤ p.amount_cents refund_cents
      then PaymentStatus.refunded
      else PaymentStatus.partially_refunded;
  refunded_at = some now;
}

abbrev pub or_default : Option String → String
or_default none = "user_cancelled"
or_default (some reason) = reason

abbrev pub ref_of : Option Payment → Option String
ref_of none = none
ref_of (some p) = p.provider_ref

-- `payments.refund`: asked of the provider, whose failure is caught.
abbrev pub ask_refund : ℤ → Option String → Action (Unit {0})
ask_refund refund_cents ref = for_some ref λ r. emit (Effect.provider_refund r refund_cents)

unfoldable pub cancel_body : Instant → ℕ → ℕ → String → ℤ → Bool → Action (Unit {0})
cancel_body now id user_id reason refund_cents refunding = do
  set_status id (to_cancelled reason)
  if refunding then set_payments id (to_refunded now refund_cents) else pure tt
  audit user_id "reservation.cancelled" id

unfoldable pub cancel :
    Instant → ℕ → ℕ → List Role → Option String → Action (ReservationStatus × ℤ × Bool)
cancel now id user_id roles reason = do
  r ← or_throw (← gets (λ s. find_reservation id s.reservations)) (app_exception not_found "")
  payment ← gets (payment_of id)
  is_staff ← gets (is_club_staff r.club_id user_id roles)
  throw_if (not (r.user_id == user_id) && not is_staff) (app_exception forbidden "")
  throw_if (not (includes open_statuses r.status))
      (app_exception policy_violation "not_cancellable")
  refund_cents ← policy_refund now r
  transaction (
      cancel_body now id user_id (or_default reason) refund_cents
        (will_refund refund_cents payment))
  if will_refund refund_cents payment then ask_refund refund_cents (ref_of payment) else pure tt
  emit (Effect.availability_changed r.club_id)
  send (cancellation_mails id)
  pure (ReservationStatus.cancelled, refund_cents, will_refund refund_cents payment)
