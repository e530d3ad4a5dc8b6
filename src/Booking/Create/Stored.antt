-- ===== src/Booking/Create/Stored.antt =====
-- What follows the booking transaction in `createReservation` leaves the reservations and rows alone.
use playslot.Prelude.{ℕ, ◌≡◌, refl, String, List}
use playslot.Prelude.Int.{ℤ}
use playslot.Prelude.Result.{ok}
use playslot.Domain.Time.{Instant}
use playslot.Payments.{Provider, create_checkout}
use playslot.Store.Tables.{
  Store, Reservation, ReservationSource, ResourceRow, Payment, Mail, Effect,
}
use playslot.Store.Action.{emit, modify, pure, ◌>>=◌, ◌>>◌}
use playslot.Store.Rows.Keeps.{Holds, keeps_rules}
use playslot.Booking.Notices.{send}
use playslot.Booking.Slot.{Env}
use playslot.Booking.Transaction.{BookingArgs, FinalStatus, run_booking_transaction}
use playslot.Booking.Create.{
  CreateReservationInput, CreateReservationResponse, NextAction, Actor, prepare_reservation,
  next_action, create_reservation,
}

module _ (reservations : List Reservation) (rows : List ResourceRow) where
  record Left (s : Store) : Type 0 where
    pub same_reservations : s.reservations ≡ reservations
    pub same_rows : s.rows ≡ rows

  emit-Left : (e : Effect) → Holds Left (emit e)
  emit-Left e = record {
    keeps = λ s v. record { same_reservations = v.same_reservations; same_rows = v.same_rows };
  }

  send-Left : (mails : Store → List Mail) → Holds Left (send mails)
  send-Left mails = record {
    keeps = λ s v. record { same_reservations = v.same_reservations; same_rows = v.same_rows };
  }

  payments-Left :
      (f : Store → List Payment) → Holds Left (modify (λ s. record s { payments = f s }))
  payments-Left f = record {
    keeps = λ s v. record { same_reservations = v.same_reservations; same_rows = v.same_rows };
  }

  create_checkout-Left :
      (provider : Provider) (id : ℕ) (cents : ℤ) (currency : String)
      → Holds Left (create_checkout provider id cents currency)
  unfolding create_checkout
  create_checkout-Left provider id cents currency = search (keeps_rules, payments-Left) depth 24

  next_action-Left :
      (env : Env) (provider : Provider) (args : BookingArgs) (r : Reservation)
      (status : FinalStatus)
      → Holds Left (next_action env provider args r status)
  unfolding next_action
  next_action-Left env provider args r FinalStatus.pending_payment =
      search (keeps_rules, emit-Left, create_checkout-Left) depth 24
  next_action-Left env provider args r FinalStatus.pending_approval =
      search (keeps_rules, send-Left) depth 24
  next_action-Left env provider args r FinalStatus.confirmed =
      search (keeps_rules, send-Left) depth 24

-- A request that passes the guards and whose transaction returns leaves what the transaction left.
pub create_reservation-stored :
    (env : Env) (provider : Provider) (now : Instant) (input : CreateReservationInput)
    (actor : Actor) (source : ReservationSource) (args : BookingArgs) (r : Reservation)
    (s t : Store)
    → prepare_reservation env now input actor source s ≡ (ok args, s)
    → run_booking_transaction args s ≡ (ok r, t)
    → let u = (create_reservation env provider now input actor source s).1 in
      (u.reservations ≡ t.reservations) × (u.rows ≡ t.rows)
unfolding create_reservation
create_reservation-stored env provider now input actor source args r s t prepared run =
    let answer : NextAction → CreateReservationResponse = λ next. record {
      reservation_id = r.id;
      status = r.status;
      hold_expires_at = r.hold_expires_at;
      price_cents = args.price_cents;
      currency = args.slot.currency;
      next = next;
    } in
    let rest : Holds (Left t.reservations t.rows) (
        emit (Effect.availability_changed args.slot.club_id)
        >> (next_action env provider args r args.final_status >>= λ next. pure (answer next))) =
      search (keeps_rules, emit-Left, next_action-Left) depth 24 in
    let left = rest.keeps t (record { same_reservations = refl; same_rows = refl }) in
    rw (prepared, run) (left.same_reservations, left.same_rows)
