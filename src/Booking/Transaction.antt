-- ===== src/Booking/Transaction.antt =====
-- reservations.service.ts, `runBookingTransaction`: the one way by which a reservation is made.
pub mod Kept
pub mod Outcome
use playslot.Prelude.{
  ℕ, ◌+◌, Bool, true, false, String, Option, none, some, List, [], ◌∷◌, if◌then◌else◌,
}
use playslot.Prelude.Int.{ℤ}
use playslot.Prelude.Result.{Result, ok, err}
use playslot.Domain.Time.{Instant, Interval}
use playslot.Domain.Status.{ReservationStatus}
use playslot.Store.Tables.{Store, Reservation, ReservationType, ReservationSource, ResourceRow}
use playslot.Store.Action.{
  Action, Thrown, app_exception, availability_changed, ◌>>=◌, ◌>>◌, pure, gets, throw_if, modify,
  transaction, on_exclusion, audit,
}
use playslot.Store.Rows.{insert_row, set_status, conflicts}
use playslot.Booking.Slot.{ResolvedSlot}

pub data FinalStatus : Type 0 where
  confirmed pending_payment pending_approval : FinalStatus

abbrev pub status_of : FinalStatus → ReservationStatus
status_of FinalStatus.confirmed = ReservationStatus.confirmed
status_of FinalStatus.pending_payment = ReservationStatus.pending_payment
status_of FinalStatus.pending_approval = ReservationStatus.pending_approval

abbrev action_of : FinalStatus → String
action_of FinalStatus.confirmed = "reservation.confirmed"
action_of FinalStatus.pending_payment = "reservation.pending_payment"
action_of FinalStatus.pending_approval = "reservation.pending_approval"

pub record BookingArgs : Type 0 where
  pub slot : ResolvedSlot
  pub user_id : ℕ
  pub actor_user_id : ℕ
  pub type : ReservationType
  pub source : ReservationSource
  pub price_cents : ℤ
  pub payment_method : String
  pub participant_name : Option String
  pub hold_expires_at : Option Instant
  pub final_status : FinalStatus

abbrev pub period_of : ResolvedSlot → Interval
period_of slot = record { start = slot.start; end = slot.end }

abbrev pub overlap : Thrown
overlap = app_exception availability_changed "overlap"

-- The reservation as `tx.reservation.create` makes it.
abbrev pub held : BookingArgs → ℕ → Reservation
held args id = record {
  id = id;
  club_id = args.slot.club_id;
  user_id = args.user_id;
  type = args.type;
  status = ReservationStatus.hold;
  source = args.source;
  starts_at = args.slot.start;
  ends_at = args.slot.end;
  price_cents = args.price_cents;
  currency = args.slot.currency;
  payment_method = args.payment_method;
  hold_expires_at = args.hold_expires_at;
  cancellation_reason = none;
  participant_name = args.participant_name;
}

abbrev kept_expiry : FinalStatus → Option Instant → Option Instant
kept_expiry FinalStatus.pending_payment t = t
kept_expiry FinalStatus.confirmed t = none
kept_expiry FinalStatus.pending_approval t = none

-- The update from HOLD to the final status.
abbrev pub finish : BookingArgs → Reservation → Reservation
finish args r = record r {
  status = status_of args.final_status;
  hold_expires_at = kept_expiry args.final_status args.hold_expires_at;
}

abbrev pub row_for : ℕ → Interval → Bool → ℕ → ResourceRow
row_for id period active resource_id = record {
  reservation_id = id;
  resource_id = resource_id;
  period = period;
  is_active = active;
}

-- `tx.reservation.create`
unfoldable pub create_held : BookingArgs → Action ℕ
create_held args s = (
  ok s.next_id,
  record s { reservations = held args s.next_id ∷ s.reservations; next_id = s.next_id + 1 },
)

-- A row for each resource.
unfoldable pub insert_rows : ℕ → Interval → Bool → List ℕ → Action (Unit {0})
insert_rows id period active [] = pure tt
insert_rows id period active (resource_id ∷ rest) = do
  insert_row (row_for id period active resource_id)
  insert_rows id period active rest

-- From the update of the status on.
unfoldable pub finish_booking : BookingArgs → ℕ → Action Reservation
finish_booking args id = do
  set_status id (finish args)
  audit args.actor_user_id (action_of args.final_status) id
  pure (finish args (held args id))

unfoldable pub booking_body : BookingArgs → Action Reservation
unfolding create_held
booking_body args = do
  conflict ← gets (λ s. conflicts args.slot.resource_ids (period_of args.slot) s.rows)
  throw_if conflict overlap
  id ← create_held args
  insert_rows id (period_of args.slot) true args.slot.resource_ids
  finish_booking args id

unfoldable pub run_booking_transaction : BookingArgs → Action Reservation
run_booking_transaction args = on_exclusion (transaction (booking_body args)) overlap
