-- ===== src/Booking/Create/Blocks.antt =====
-- reservations.service.ts, `createBlock` and `createCoachBlockingReservation`: reservations without a
-- customer, of the staff and behind a group session.
use playslot.Prelude.{ℕ, true, false, String, Option, none, some, List, [], ◌∷◌}
use playslot.Prelude.Int.{pos}
use playslot.Domain.Time.{Instant}
use playslot.Store.Tables.{Reservation, ReservationType, ReservationSource, Effect}
use playslot.Store.Action.{Action, ◌>>=◌, ◌>>◌, pure, emit}
use playslot.Booking.Slot.{Env, ResolvedSlot, resolve_slot, resolve_coach_resource}
use playslot.Booking.Transaction.{BookingArgs, FinalStatus, run_booking_transaction}

pub record BlockInput : Type 0 where
  pub starts_at : Option Instant
  pub duration_min : ℕ
  pub resource_ids : List ℕ

abbrev free_booking :
    ResolvedSlot → ℕ → ReservationType → ReservationSource → Option String → BookingArgs
free_booking slot user_id type source name = record {
  slot = slot;
  user_id = user_id;
  actor_user_id = user_id;
  type = type;
  source = source;
  price_cents = pos 0;
  payment_method = "FREE";
  participant_name = name;
  hold_expires_at = none;
  final_status = FinalStatus.confirmed;
}

unfoldable pub create_block : Env → Instant → ℕ → BlockInput → ℕ → Action Reservation
create_block env now club_id input staff_user_id = do
  slot ← resolve_slot env now (record {
    club_id = club_id;
    starts_at = input.starts_at;
    duration_min = input.duration_min;
    resource_ids = input.resource_ids;
    enforce_hours = false;
    allow_midnight_cross = true;
  })
  r ←
      run_booking_transaction
        (free_booking slot staff_user_id ReservationType.block ReservationSource.club_staff none)
  emit (Effect.availability_changed slot.club_id)
  pure r

pub record CoachBlocking : Type 0 where
  pub coach_profile_id : ℕ
  pub coach_user_id : ℕ
  pub club_id : ℕ
  pub starts_at : Option Instant
  pub duration_min : ℕ
  pub court_id : ℕ
  pub title : String

unfoldable pub create_coach_blocking_reservation :
    Env → Instant → CoachBlocking → Action (Reservation × ResolvedSlot)
create_coach_blocking_reservation env now args = do
  slot ← resolve_slot env now (record {
    club_id = args.club_id;
    starts_at = args.starts_at;
    duration_min = args.duration_min;
    resource_ids = args.court_id ∷ [];
    enforce_hours = true;
    allow_midnight_cross = false;
  })
  coach_resource_id ← resolve_coach_resource args.coach_profile_id slot
  let full = record slot { resource_ids = args.court_id ∷ coach_resource_id ∷ [] }
  r ← run_booking_transaction (
      free_booking full args.coach_user_id ReservationType.lesson ReservationSource.coach
        (some args.title))
  emit (Effect.availability_changed full.club_id)
  pure (r, full)
