-- ===== src/Booking/Create/Manual.antt =====
-- reservations.service.ts, `createManual`: a booking that the staff makes for a customer.
use playslot.Prelude.{
  ℕ, ◌+◌, true, false, String, Option, none, some, List, [], ◌∷◌, map, any, find, ◌==◌,
  if◌then◌else◌,
}
use playslot.Prelude.Text.{codes_eq, lower}
use playslot.Prelude.Result.{ok, err}
use playslot.Domain.Time.{Instant}
use playslot.Domain.Status.{ReservationStatus, status_eq}
use playslot.Store.Tables.{
  Email, Role, User, Reservation, ReservationType, ReservationSource, Effect,
}
use playslot.Store.Action.{
  Action, app_exception, unique_violation, not_found, ◌>>=◌, ◌>>◌, pure, gets, throw, type_error,
  or_throw, emit,
}
use playslot.Booking.Slot.{Env, resolve_slot}
use playslot.Booking.Notices.{send, booking_received_mails, confirmation_mails}
use playslot.Booking.Transaction.{FinalStatus, run_booking_transaction}
use playslot.Booking.Create.{price_booking}

pub record Customer : Type 0 where
  pub name : String
  pub email : Option Email

pub record ManualBookingInput : Type 0 where
  pub starts_at : Option Instant
  pub duration_min : ℕ
  pub resource_ids : List ℕ
  pub type : ReservationType
  pub payment_method : String
  pub coach_profile_id : Option ℕ
  pub service_id : Option ℕ
  pub status : FinalStatus
  pub customer_user_id : Option ℕ
  pub customer : Option Customer
  -- the address made up for a walk-in, from the club, the clock and a random number
  pub placeholder : Email

-- `input.customer ? { name: input.customer.name } : null`
abbrev participant : Option Customer → Option String
participant none = none
participant (some c) = some c.name

-- `user.create`: an address that is taken fails.
unfoldable pub create_user : Email → String → Action ℕ
create_user email name s =
    if any (λ (u : User). codes_eq u.email email) s.users then (err unique_violation, s) else (
      ok s.next_id,
      record s {
        users =
            record {
              id = s.next_id;
              email = email;
              name = name;
              locale = "bg";
              notify_by_email = true;
              subscribed = false;
              roles = Role.player ∷ [];
              email_verified_at = none;
              suspended_at = none;
              suspension_reason = none;
              suspension_note = none;
              reinstatement_fee_cents = none;
              deleted_at = none;
            }
            ∷ s.users;
        next_id = s.next_id + 1;
      },
    )

-- The account with the address, or a new one.
unfoldable pub by_email : String → Option Email → Email → Action ℕ
by_email name none placeholder = create_user placeholder name
by_email name (some email) placeholder = λ s.
    elim (find (λ (u : User). codes_eq u.email (map lower email)) s.users) [
      | some existing ↦ (ok existing.id, s)
      | none ↦ create_user (map lower email) name s
    ]

-- A field of `undefined` cannot be read.
unfoldable pub new_customer : Option Customer → Email → Action ℕ
new_customer none placeholder = throw type_error
new_customer (some c) placeholder = by_email c.name c.email placeholder

unfoldable pub resolve_customer : Option ℕ → Option Customer → Email → Action ℕ
resolve_customer (some id) customer placeholder = do
  u ←
      or_throw (← gets (λ s. find (λ (u : User). u.id == id) s.users))
        (app_exception not_found "customer")
  pure u.id
resolve_customer none customer placeholder = new_customer customer placeholder

unfoldable pub create_manual : Env → Instant → ℕ → ManualBookingInput → ℕ → Action Reservation
create_manual env now club_id input staff_user_id = do
  slot ← resolve_slot env now (record {
    club_id = club_id;
    starts_at = input.starts_at;
    duration_min = input.duration_min;
    resource_ids = input.resource_ids;
    enforce_hours = true;
    allow_midnight_cross = false;
  })
  customer_user_id ← resolve_customer input.customer_user_id input.customer input.placeholder
  (type, full, price_cents) ←
      price_booking env input.type input.coach_profile_id input.service_id slot
  r ← run_booking_transaction (record {
    slot = full;
    user_id = customer_user_id;
    actor_user_id = staff_user_id;
    type = type;
    source = ReservationSource.club_staff;
    price_cents = price_cents;
    payment_method = input.payment_method;
    participant_name = participant input.customer;
    hold_expires_at = none;
    final_status = input.status;
  })
  emit (Effect.availability_changed slot.club_id)
  send (
      if status_eq r.status ReservationStatus.pending_approval
      then booking_received_mails env r.id
      else confirmation_mails env r.id)
  pure r
