-- ===== src/Tests/Courts.antt =====
-- The theorem on a FREE slot at a concrete store: what a guest is shown of a court, and books.
use mathlib.Core.List.{mem-cons_self, mem-cons_of_mem}
use playslot.Prelude.{
  ℕ, ◌+◌, ◌≡◌, refl, true, false, none, some, List, [], ◌∷◌, find, any, all, filter, All, sym,
  arith,
}
use playslot.Prelude.Int.{pos, ◌+ℤ◌}
use playslot.Prelude.Result.{ok}
use playslot.Prelude.Sort.{sort, insert}
use playslot.Domain.Time.{
  instant_from_day_minutes, is_iso_date, next_iso_date, print_date, weekday_in_zone,
  intervals_overlap,
}
use playslot.Domain.Status.{ReservationStatus, occupies_inventory}
use playslot.Domain.Slots.{
  SlotState, Slot, generate_slots, visit, visit_from, visit_all, visit_windows, start_minutes,
  slot_at, classify,
}
use playslot.Store.Tables.{Store, Resource}
use playslot.Store.Rows.{exclusive, find_reservation}
use playslot.Store.Rows.Inv.{Inv}
use playslot.Memberships.{apply_discount}
use playslot.Booking.Slot.{price_for, load_price_rules}
use playslot.Booking.Transaction.{BookingArgs, finish, held}
use playslot.Availability.{occupancy, occ_by_court, pushes, is_shown}
use playslot.Availability.Day.{slots_input, closures_of, slot_price}
use playslot.Availability.Bookable.{IsCounted}
use playslot.Store.Tables.{ReservationType, ReservationSource}
use playslot.Booking.Slot.{resolve_slot, check_resource, check_resources}
use playslot.Booking.Create.{
  CreateReservationInput, Actor, prepare_reservation, price_booking, create_reservation,
}
use playslot.Availability.{
  AvailabilityQuery, AvailabilitySlot, AvailabilityResponse, load_coach_availability,
}
use playslot.Availability.Day.{get_availability, court_slots, slot_dto}
use playslot.Domain.Time.{Instant, print_date}
use playslot.Domain.Status.{requires_online_payment}
use playslot.Domain.Pricing.{
  charge, in_season, matches, month_day_in_zone, precedence, resolve_price, rule_courts,
  specificity,
}
use playslot.Memberships.{best_discount, discount_percent}
use playslot.Prelude.Int.{round_div, ◌*ℤ◌, ◌-ℤ◌}
use playslot.Availability.{busy_times, coach_avails}
use playslot.Availability.Day.{durations, coaches_for, is_coach_free, uniq}
use playslot.Booking.Transaction.{FinalStatus}
use playslot.Availability.Booked.{free-books}
use playslot.Store.Rows.Exclusive.{active_row}
use playslot.Tests.Fixtures.{
  utc, provider, env, court, with_status, at, first_day, rule, reservation,
}

-- Open from nine to eleven.
abbrev short_court : Resource
short_court = record court {
  availability_rules = record { weekday = 4; start_min = 540; end_min = 660 } ∷ [];
}

abbrev busy : Store
busy = with_status ReservationStatus.confirmed

busy-Inv : Inv busy
unfolding exclusive all find_reservation find occupies_inventory
busy-Inv = record {
  no_overlap = refl;
  synced = ((_, refl, refl, refl), tt);
  fresh = (omega arith, tt);
}

abbrev slot_of : ℕ → ℕ → SlotState → Slot
slot_of start_min start state = record {
  resource_id = 2;
  start_min = start_min;
  start = start;
  end = start + 3_600_000;
  state = state;
}

abbrev free_slot : Slot
free_slot = slot_of 600 (at 10) SlotState.free

abbrev shown_slots : List Slot
shown_slots =
    slot_of 540 (at 9) SlotState.reserved
    ∷ slot_of 570 (at 9 + 1_800_000) SlotState.reserved
    ∷ free_slot
    ∷ []

-- The store with the court and a price.
abbrev offering : Store
offering = record busy {
  resources = short_court ∷ [];
  price_rules = record { club_id = 1; rule = rule 1 (pos 2_000) } ∷ [];
}

abbrev query : AvailabilityQuery
query = record { club_id = 1; date = first_day; sport = none; duration = some 60 }

abbrev shown_at : Instant → SlotState → AvailabilitySlot
shown_at start state = record {
  resource_id = 2;
  start = start;
  end = start + 3_600_000;
  state = state;
  price_cents = some (pos 2_000);
  durations_min = 60 ∷ 120 ∷ [];
  coach_ids = [];
  min_reservation_min = 60;
  allow_half_hour = true;
}

abbrev at_ten : AvailabilitySlot
at_ten = shown_at (at 10) SlotState.free

abbrev answer : AvailabilityResponse
answer = record {
  date = first_day;
  timezone = utc;
  currency = "EUR";
  slot_interval_min = 30;
  booking_durations_min = 30 ∷ [];
  courts =
      record {
        id = 2;
        name = "Court";
        surface = none;
        is_indoor = none;
        has_lighting = none;
        min_reservation_min = 60;
        allow_half_hour = true;
      }
      ∷ [];
  slots =
      shown_at (at 9) SlotState.reserved
      ∷ shown_at (at 9 + 1_800_000) SlotState.reserved
      ∷ at_ten
      ∷ [];
}

-- What a guest is shown at eight.
offering-answer : get_availability env (at 8) query none offering ≡ (ok answer, offering)
unfolding get_availability find instant_from_day_minutes is_iso_date next_iso_date weekday_in_zone
    court_slots sort filter generate_slots slots_input visit_windows start_minutes visit_all visit
    visit_from slot_at slot_dto classify slot_price durations coaches_for closures_of is_coach_free
    uniq busy_times coach_avails is_shown load_coach_availability occ_by_court occupancy pushes
    load_price_rules charge in_season matches month_day_in_zone precedence resolve_price rule_courts
    specificity intervals_overlap apply_discount best_discount discount_percent round_div ◌*ℤ◌ ◌+ℤ◌
    ◌-ℤ◌ any insert find_reservation print_date
offering-answer = refl

abbrev wish : CreateReservationInput
wish = record {
  club_id = 1;
  type = ReservationType.court;
  starts_at = some (at 10);
  duration_min = 60;
  payment_method = "ONSITE";
  resource_ids = 2 ∷ [];
  coach_profile_id = none;
  service_id = none;
  turnstile_verified = true;
}

abbrev guest : Actor
guest = record { user_id = 3; email_verified = true }

abbrev accepted : BookingArgs
accepted = record {
  slot = record {
    club_id = 1;
    requires_booking_approval = false;
    currency = "EUR";
    slot_interval_min = 30;
    start = at 10;
    end = at 11;
    weekday = 4;
    start_min = 600;
    end_min = 660;
    resource_ids = 2 ∷ [];
  };
  user_id = 3;
  actor_user_id = 3;
  type = ReservationType.court;
  source = ReservationSource.club_staff;
  price_cents = pos 2_000;
  payment_method = "ONSITE";
  participant_name = none;
  hold_expires_at = some (at 8 + 900_000);
  final_status = FinalStatus.confirmed;
}

wish-accepted :
    prepare_reservation env (at 8) wish guest ReservationSource.club_staff offering
    ≡ (ok accepted, offering)
unfolding prepare_reservation resolve_slot find instant_from_day_minutes is_iso_date weekday_in_zone
    filter check_resources check_resource any price_booking price_for resolve_price sort
    load_price_rules matches rule_courts charge in_season month_day_in_zone precedence specificity
    intervals_overlap apply_discount best_discount discount_percent round_div ◌*ℤ◌ ◌+ℤ◌ ◌-ℤ◌ insert
    requires_online_payment
wish-accepted = refl

offering-Inv : Inv offering
offering-Inv = record {
  no_overlap = busy-Inv.no_overlap;
  synced = busy-Inv.synced;
  fresh = busy-Inv.fresh;
}

IsCounted-rows : All (IsCounted 1 (at 8) 2 offering.reservations) offering.rows
unfolding find_reservation find
IsCounted-rows = (
  λ _ r e.
      let is : reservation ReservationStatus.confirmed ≡ r = ground (arith, e) in rw (sym is) refl,
  tt,
)

first_midnight : instant_from_day_minutes utc first_day 0 ≡ ok 0
unfolding instant_from_day_minutes is_iso_date
first_midnight = refl

next_midnight : instant_from_day_minutes utc first_day 1440 ≡ ok (at 24)
unfolding instant_from_day_minutes is_iso_date next_iso_date print_date
next_midnight = refl

free-books_example :
    let u =
      (create_reservation env provider (at 8) wish guest ReservationSource.club_staff offering).1 in
    (u.reservations ≡ finish accepted (held accepted 10) ∷ offering.reservations)
    × (u.rows ≡ active_row 10 2 (record { start = at 10; end = at 11 }) ∷ offering.rows)
free-books_example =
    free-books env provider (at 8) (at 8) query none answer 0 (at 24) at_ten wish guest
      ReservationSource.club_staff accepted offering offering offering-Inv offering-answer
      first_midnight next_midnight (mem-cons_of_mem _ (mem-cons_of_mem _ mem-cons_self))
      IsCounted-rows refl (omega arith) (omega arith) wish-accepted refl refl
