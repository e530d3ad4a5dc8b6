-- ===== src/Tests/Bookings.antt =====
-- The theorems on reservations at concrete stores.
use playslot.Prelude.{
  ℕ, ◌+◌, ◌≡◌, refl, true, false, [], ◌∷◌, some, none, arith, any, all, find, filter,
}
use playslot.Prelude.Int.{pos}
use playslot.Prelude.Result.{ok, err}
use playslot.Domain.Time.{
  is_iso_date, next_iso_date, instant_from_day_minutes, intervals_overlap, weekday_in_zone,
}
use playslot.Domain.Time.Overlap.{Within}
use playslot.Domain.Status.{ReservationStatus, occupies_inventory}
use playslot.Store.Tables.{Store, ResourceRow, User, Role}
use playslot.Store.Rows.{
  clash, ranges_overlap, exclusive, conflicts, find_reservation, update_reservation, sync_row,
  set_status, insert_row, write_rows,
}
use playslot.Store.Rows.Inv.{Inv}
use playslot.Booking.Slot.{check_resource, check_resources, resolve_slot}
use playslot.Booking.Transaction.{
  run_booking_transaction, booking_body, create_held, insert_rows, finish_booking, finish, held,
  row_for,
}
use playslot.Booking.Transaction.Outcome.{booked, run_booking_transaction_lem}
use playslot.Moderation.{SuspendUserInput, suspend, reinstate, verify_email}
use playslot.Moderation.Guarded.{admin_safe}
use playslot.Moderation.Removal.{remove}
use playslot.Store.Action.{app_exception, forbidden}
use playslot.Booking.Create.Blocks.{BlockInput, create_block}
use playslot.Booking.Lifecycle.{confirm_paid_reservation, fail_payment}
use playslot.Booking.Lifecycle.Replay.{paid-replay}
use playslot.Booking.System.{block, perform, IsFresh, start, step}
use playslot.Booking.System.Safety.{no_double_booking, perform-Inv}
use playslot.Tests.Fixtures.{env, provider, empty_store, with_status, args, at}

abbrev block_at : ℕ → BlockInput
block_at h = record { starts_at = some (at h); duration_min = 60; resource_ids = 2 ∷ [] }

empty_store-IsFresh : IsFresh empty_store
empty_store-IsFresh = record {
  no_reservations = refl;
  no_rows = refl;
  no_sessions = refl;
  no_registrations = refl;
}

empty_store-Inv : Inv empty_store
unfolding exclusive
empty_store-Inv = record { no_overlap = refl; synced = tt; fresh = tt }

with_status-Inv : Inv (with_status ReservationStatus.pending_payment)
unfolding exclusive all find_reservation find occupies_inventory
with_status-Inv = record {
  no_overlap = refl;
  synced = ((_, refl, refl, refl), tt);
  fresh = (omega arith, tt);
}

-- Two blocks of the court, one after the other.
abbrev two_blocks : Store
two_blocks =
    perform env provider 0 (block 1 (block_at 11) 3)
      (perform env provider 0 (block 1 (block_at 9) 3) empty_store)

abbrev block_row : ℕ → ℕ → ResourceRow
block_row id h = row_for id (record { start = at h; end = at (h + 1) }) true 2

two_blocks-rows : two_blocks.rows ≡ block_row 11 11 ∷ block_row 10 9 ∷ []
unfolding perform create_block resolve_slot check_resource check_resources run_booking_transaction
    booking_body create_held insert_rows insert_row write_rows exclusive clash ranges_overlap
    conflicts finish_booking set_status find_reservation update_reservation sync_row any all find
    filter instant_from_day_minutes weekday_in_zone intervals_overlap occupies_inventory is_iso_date
    next_iso_date
two_blocks-rows = refl

no_double_booking_example :
    ¬ (Within (at 10) (block_row 11 11).period × Within (at 10) (block_row 10 9).period)
no_double_booking_example =
    no_double_booking env provider two_blocks
      (step 0 (block 1 (block_at 11) 3)
        (step 0 (block 1 (block_at 9) 3) (start empty_store empty_store-IsFresh)))
      [] [] [] (block_row 11 11) (block_row 10 9) two_blocks-rows refl refl refl (at 10)

perform-Inv_example : Inv (perform env provider 0 (block 1 (block_at 9) 3) empty_store)
perform-Inv_example =
    perform-Inv env provider 0 (block 1 (block_at 9) 3) empty_store empty_store-Inv

run_booking_transaction_lem_example :
    run_booking_transaction args empty_store
    ≡ (ok (finish args (held args 10)), booked args empty_store)
unfolding conflicts any
run_booking_transaction_lem_example =
    run_booking_transaction_lem args empty_store empty_store-Inv (refl, tt)

abbrev paid_store : Store
paid_store =
    (confirm_paid_reservation env 5 5 "ref" (with_status ReservationStatus.pending_payment)).1

paid-replay_example :
    (confirm_paid_reservation env 6 5 "again" paid_store ≡ (ok tt, paid_store))
    × (fail_payment 5 paid_store ≡ (ok tt, paid_store))
paid-replay_example =
    paid-replay env 5 6 5 "ref" "again" (with_status ReservationStatus.pending_payment)
      with_status-Inv

abbrev pub booked_store : Store
booked_store = with_status ReservationStatus.confirmed

abbrev admin : User
admin = record {
  id = 4;
  email = [];
  name = "Admin";
  locale = "bg";
  notify_by_email = true;
  subscribed = false;
  roles = Role.platform_admin ∷ [];
  email_verified_at = none;
  suspended_at = none;
  suspension_reason = none;
  suspension_note = none;
  reinstatement_fee_cents = none;
  deleted_at = none;
}

abbrev suspension : SuspendUserInput
suspension = record {
  reason = "OTHER";
  cancellation_reason = "account_suspended:OTHER";
  note = none;
  fee_cents = pos 1_000;
  cancel_upcoming = true;
}

abbrev with_admin : Store
with_admin = record (with_status ReservationStatus.confirmed) { users = admin ∷ [] }

admin_safe_example :
    (suspend 4 9 suspension 3 with_admin
      ≡ (err (app_exception forbidden "platform_admin"), with_admin))
    × (reinstate 4 true 3 with_admin ≡ (err (app_exception forbidden "platform_admin"), with_admin))
    × (verify_email 4 9 3 with_admin ≡ (err (app_exception forbidden "platform_admin"), with_admin))
    × (remove 4 9 3 with_admin ≡ (err (app_exception forbidden "platform_admin"), with_admin))
unfolding find any
admin_safe_example = admin_safe 4 3 9 suspension true with_admin admin refl refl refl refl
