-- ===== src/Tests/Sessions.antt =====
-- The theorems on group sessions at concrete stores.
use playslot.Prelude.{
  ℕ, ◌≤◌, ◌≡◌, refl, true, none, some, [], ◌∷◌, map, find, all, any, filter, arith,
}
use playslot.Prelude.Int.{pos}
use playslot.Prelude.Result.{ok}
use playslot.Domain.Status.{ReservationStatus, occupies_inventory}
use playslot.Standing.{assert_in_good_standing}
use playslot.Store.Tables.{Store, Role, User, Resource, ResourceType, CoachProfile, GroupSession}
use playslot.Store.Rows.{
  exclusive, find_reservation, sync_row, update_reservation, clash, ranges_overlap, conflicts,
  set_status, insert_row, write_rows,
}
use playslot.Domain.Time.{
  is_iso_date, next_iso_date, instant_from_day_minutes, intervals_overlap, weekday_in_zone,
}
use playslot.Booking.Slot.{check_resource, check_resources, resolve_slot, resolve_coach_resource}
use playslot.Booking.Transaction.{
  run_booking_transaction, booking_body, create_held, insert_rows, finish_booking,
}
use playslot.Booking.Create.Blocks.{create_coach_blocking_reservation}
use playslot.Store.Rows.Inv.{Inv}
use playslot.Booking.Lifecycle.{to_cancelled}
use playslot.Booking.System.{perform, host, register_call, start, step}
use playslot.Booking.System.Seats.{no_overfull}
use playslot.GroupSessions.{
  create, insert_session, invite_mails, get_one, to_dto, register_for, take_seat,
  insert_registration, CreateGroupSessionInput, find_session, seats_taken, is_registered, register,
  unregister, cancel, to_called_off,
}
use playslot.GroupSessions.Seats.{unique}
use playslot.GroupSessions.Roster.{roster_of, join, leave, register-join, unregister-leave}
use playslot.GroupSessions.CalledOff.{cancel-releases}
use playslot.Tests.Fixtures.{env, provider, empty_store, court, with_status, at, reservation}

abbrev pub user : ℕ → User
user id = record {
  id = id;
  email = id ∷ [];
  name = "User";
  locale = "bg";
  notify_by_email = true;
  subscribed = true;
  roles = Role.player ∷ [];
  email_verified_at = none;
  suspended_at = none;
  suspension_reason = none;
  suspension_note = none;
  reinstatement_fee_cents = none;
  deleted_at = none;
}

abbrev coach : CoachProfile
coach = record { id = 6; user_id = 7 }

abbrev session : GroupSession
session = record {
  id = 8;
  coach_profile_id = 6;
  club_id = 1;
  reservation_id = 5;
  title = "Drills";
  description = none;
  starts_at = at 9;
  ends_at = at 10;
  capacity = 2;
  price_cents = pos 0;
  currency = "EUR";
  cancelled_at = none;
}

-- A session with one of its two seats taken.
abbrev with_session : Store
with_session = record (with_status ReservationStatus.confirmed) {
  users = user 3 ∷ user 4 ∷ user 7 ∷ [];
  coach_profiles = coach ∷ [];
  group_sessions = session ∷ [];
  registrations = record { group_session_id = 8; user_id = 4 } ∷ [];
}

with_session-Inv : Inv with_session
unfolding exclusive all find_reservation find occupies_inventory
with_session-Inv = record {
  no_overlap = refl;
  synced = ((_, refl, refl, refl), tt);
  fresh = (omega arith, tt);
}

register-join_example :
    ((register (at 1) 8 3 with_session).0
      ≡ (join 3 (roster_of session with_session.registrations)).0)
    × (roster_of session (register (at 1) 8 3 with_session).1.registrations
        ≡ (join 3 (roster_of session with_session.registrations)).1)
unfolding find assert_in_good_standing
register-join_example = register-join (at 1) 3 with_session session refl refl refl refl

unregister-leave_example :
    roster_of session (unregister 8 4 with_session).1.registrations
    ≡ leave 4 (roster_of session with_session.registrations)
unfolding unique is_registered seats_taken any filter
unregister-leave_example = unregister-leave 4 with_session session refl (omega arith)

cancel-releases_example :
    let t = cancel (at 2) 8 7 with_session in
    (t.0 ≡ ok tt)
    × (t.1.reservations
        ≡ update_reservation 5 (to_cancelled "group_session_cancelled") with_session.reservations)
    × (t.1.rows ≡ map (sync_row 5 ReservationStatus.cancelled) with_session.rows)
    × (find_session 8 t.1 ≡ some (to_called_off (at 2) session))
    × (t.1.registrations ≡ with_session.registrations)
    × (cancel (at 3) 8 7 t.1 ≡ (ok tt, t.1))
unfolding find find_reservation occupies_inventory
cancel-releases_example =
    cancel-releases (at 2) (at 3) 7 with_session session coach
      (reservation ReservationStatus.confirmed) with_session-Inv refl refl refl refl refl refl

abbrev coach_resource : Resource
coach_resource = record court {
  id = 9;
  club_id = none;
  type = ResourceType.coach;
  name = "Coach";
  coach_profile_id = some 6;
}

abbrev hosting : Store
hosting = record empty_store {
  users = user 3 ∷ user 7 ∷ [];
  resources = court ∷ coach_resource ∷ [];
  coach_profiles = coach ∷ [];
  coach_clubs = record { coach_profile_id = 6; club_id = 1 } ∷ [];
}

abbrev drills : CreateGroupSessionInput
drills = record {
  club_id = 1;
  court_id = 2;
  starts_at = some (at 9);
  duration_min = 60;
  capacity = 2;
  price_cents = pos 0;
  title = "Drills";
  description = none;
}

abbrev hosted : Store
hosted =
    perform env provider (at 2) (register_call 11 3)
      (perform env provider (at 1) (host 7 drills) hosting)

no_overfull_example :
    ((id : ℕ) (g : GroupSession)
      → find_session id hosted ≡ some g
      → seats_taken id hosted.registrations ≤ g.capacity)
    × (unique hosted.registrations ≡ true)
no_overfull_example = no_overfull env provider hosted (
    step (at 2) (register_call 11 3) (
      step (at 1) (host 7 drills) (
        start hosting (record {
          no_reservations = refl;
          no_rows = refl;
          no_sessions = refl;
          no_registrations = refl;
        }))))

-- The coach's session is there, with its player.
hosted_seats : hosted.registrations ≡ record { group_session_id = 11; user_id = 3 } ∷ []
unfolding perform register register_for take_seat insert_registration seats_taken is_registered
    create insert_session invite_mails get_one to_dto create_coach_blocking_reservation resolve_slot
    check_resource check_resources resolve_coach_resource run_booking_transaction booking_body
    create_held insert_rows insert_row write_rows exclusive clash ranges_overlap conflicts
    finish_booking set_status find_reservation update_reservation sync_row any all find filter
    instant_from_day_minutes weekday_in_zone intervals_overlap occupies_inventory is_iso_date
    next_iso_date assert_in_good_standing
hosted_seats = refl
