-- ===== src/Booking/Reschedule.antt =====
-- reservations.service.ts, `reschedule`: a move to another time or other resources.
pub mod Kept
use playslot.Prelude.{
  ℕ, Bool, true, false, not, ◌&&◌, ◌||◌, String, Option, none, some, List, [], ◌∷◌, filter, ◌==◌,
  if◌then◌else◌,
}
use playslot.Prelude.Int.{ℤ, pos}
use playslot.Prelude.Result.{ok, err}
use playslot.Domain.Time.{Instant}
use playslot.Domain.Status.{includes, occupying_statuses, ReservationStatus}
use playslot.Store.Tables.{Store, Reservation, ReservationType, ResourceRow, Effect}
use playslot.Store.Action.{
  Action, app_exception, not_found, policy_violation, ◌>>=◌, ◌>>◌, pure, gets, or_throw, throw_if,
  modify, transaction, on_exclusion, emit, audit,
}
use playslot.Store.Rows.{conflicts, set_status}
use playslot.Booking.Slot.{
  Env, SlotRequest, ResolvedSlot, resolve_slot, price_for, load_price_rules,
}
use playslot.Booking.Notices.{send, reschedule_mails}
use playslot.Booking.Transaction.{period_of, overlap, insert_rows}
use playslot.Booking.Lifecycle.{find_of_club}
use playslot.Booking.Cancel.{open_statuses}

pub record RescheduleInput : Type 0 where
  pub starts_at : Option Instant
  pub duration_min : ℕ
  pub resource_ids : List ℕ

abbrev pub is_block : ReservationType → Bool
is_block ReservationType.block = true
is_block t = false

abbrev keeps_hours : ReservationType → Bool
keeps_hours ReservationType.court = true
keeps_hours ReservationType.lesson = true
keeps_hours t = false

-- The statuses that are listed for `active`.
abbrev pub active_statuses : List ReservationStatus
active_statuses =
    ReservationStatus.hold ∷ ReservationStatus.pending_payment ∷ ReservationStatus.pending_approval
    ∷ ReservationStatus.confirmed ∷ ReservationStatus.completed ∷ []

-- `data: { startsAt, endsAt, priceCents }`
abbrev pub moved : ResolvedSlot → ℤ → Reservation → Reservation
moved slot price_cents r = record r {
  starts_at = slot.start;
  ends_at = slot.end;
  price_cents = price_cents;
}

-- `DELETE FROM "ReservationResource" WHERE "reservationId" = …`
unfoldable pub without : ℕ → List ResourceRow → List ResourceRow
without id rows = filter (λ (r : ResourceRow). not (r.reservation_id == id)) rows

unfoldable pub reschedule_body : ResolvedSlot → Reservation → ℕ → ℤ → ℕ → Action (Unit {0})
reschedule_body slot existing id price_cents staff_user_id = do
  modify (λ s. record s { rows = without id s.rows })
  conflict ← gets (λ s. conflicts slot.resource_ids (period_of slot) s.rows)
  throw_if conflict overlap
  insert_rows id (period_of slot) (includes active_statuses existing.status) slot.resource_ids
  set_status id (moved slot price_cents)
  audit staff_user_id "reservation.rescheduled" id

unfoldable pub new_price : Env → ℕ → ReservationType → ResolvedSlot → Action ℤ
new_price env club_id type slot =
    if is_block type
    then pure (pos 0)
    else do rules ← gets (load_price_rules club_id); price_for env rules slot

-- From the transaction on.
unfoldable pub move : ℕ → ℕ → Reservation → ℕ → ResolvedSlot → ℤ → Action (ℕ × Instant × ℤ)
move club_id id existing staff_user_id slot price_cents = do
  on_exclusion (transaction (reschedule_body slot existing id price_cents staff_user_id)) overlap
  emit (Effect.availability_changed club_id)
  if is_block existing.type then pure tt else send (reschedule_mails id)
  pure (id, slot.start, price_cents)

-- From the check of the status on.
unfoldable pub reschedule_existing :
    Env → Instant → ℕ → ℕ → RescheduleInput → ℕ → Reservation → Action (ℕ × Instant × ℤ)
reschedule_existing env now club_id id input staff_user_id existing = do
  throw_if (not (includes open_statuses existing.status))
      (app_exception policy_violation "not_reschedulable")
  slot ← resolve_slot env now (record {
    club_id = club_id;
    starts_at = input.starts_at;
    duration_min = input.duration_min;
    resource_ids = input.resource_ids;
    enforce_hours = keeps_hours existing.type;
    allow_midnight_cross = is_block existing.type;
  })
  price_cents ← new_price env club_id existing.type slot
  move club_id id existing staff_user_id slot price_cents

unfoldable pub reschedule : Env → Instant → ℕ → ℕ → RescheduleInput → ℕ → Action (ℕ × Instant × ℤ)
reschedule env now club_id id input staff_user_id = do
  existing ← or_throw (← gets (find_of_club club_id id)) (app_exception not_found "")
  reschedule_existing env now club_id id input staff_user_id existing
