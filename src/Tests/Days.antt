-- ===== src/Tests/Days.antt =====
-- The theorems on the slots of a day, and on the choice of a price rule, at concrete inputs.
use mathlib.Core.List.{mem-cons_self}
use playslot.Prelude.{
  ℕ, ◌+◌, ◌*◌, ◌<◌, ◌≡◌, ◌↔◌, refl, sym, true, false, some, List, [], ◌∷◌, All, Mem, arith, filter,
  find, any, contains,
}
use playslot.Prelude.Int.{◌+ℤ◌}
use playslot.Prelude.Result.{ok, err}
use playslot.Prelude.Sort.{sort, insert}
use playslot.Domain.Time.{
  IsoDate, invalid_time, is_iso_date, is_calendar_date, next_iso_date, print_date,
  instant_from_day_minutes, weekday_in_zone, intervals_overlap,
}
use playslot.Domain.Time.Calendar.{days_in_month, is_leap, next_day}
use playslot.Domain.Time.NextDay.{count_of, end_of_day}
use playslot.Domain.Slots.{
  AvailabilityRuleLike, GenerateSlotsInput, Slot, SlotState, classify, generate_slots,
  start_minutes, visit, visit_from, visit_all, visit_windows, slot_at, Occupancy, OccupancyState,
}
use playslot.Domain.Slots.Rounds.{StandsFor, IsShown, starts}
use playslot.Domain.Slots.Generated.{InWindow}
use playslot.Domain.Slots.Sorted.{IsIncreasing}
use playslot.Domain.Slots.Classified.{Apart, classify-free_iff}
use playslot.Domain.Slots.Offered.{windows, generate_slots_sound, generate_slots_complete}
use playslot.Domain.Slots.Total.{generate_slots_total}
use playslot.Tests.Fixtures.{at, utc, first_day}

abbrev morning : AvailabilityRuleLike
morning = record { weekday = 4; start_min = 540; end_min = 660 }

abbrev input : GenerateSlotsInput
input = record {
  resource = record {
    id = 2;
    slot_interval_min = 60;
    min_reservation_min = 60;
    allow_half_hour = false;
  };
  rules = morning ∷ [];
  closures = [];
  occupancy =
      record { interval = record { start = at 10; end = at 11 }; state = OccupancyState.reserved }
      ∷ [];
  iso_date = first_day;
  zone = utc;
  duration_min = 60;
  now = at 8;
}

abbrev slot_of : ℕ → SlotState → Slot
slot_of h state = record {
  resource_id = 2;
  start_min = h * 60;
  start = at h;
  end = at (h + 1);
  state = state;
}

abbrev offered : List Slot
offered = slot_of 9 SlotState.free ∷ slot_of 10 SlotState.reserved ∷ []

date_ok : is_calendar_date first_day ≡ true
unfolding is_calendar_date is_iso_date days_in_month
date_ok = refl

thursday : weekday_in_zone utc first_day ≡ ok 4
unfolding weekday_in_zone instant_from_day_minutes is_iso_date ◌+ℤ◌
thursday = refl

offered_day : generate_slots input ≡ ok offered
unfolding generate_slots weekday_in_zone instant_from_day_minutes is_iso_date next_iso_date ◌+ℤ◌
    visit_windows visit_all visit visit_from start_minutes slot_at classify sort insert filter find
    any intervals_overlap
offered_day = refl

generate_slots_sound_example :
    All (StandsFor input (InWindow input (windows input 4))) offered × IsIncreasing offered
generate_slots_sound_example =
    generate_slots_sound input 4 offered (omega arith) thursday offered_day

morning_listed : Mem morning input.rules
morning_listed = mem-cons_self

shown : IsShown input 600
unfolding instant_from_day_minutes is_iso_date
shown t e = let same : at 10 ≡ t = ground arith in rw (sym same) refl

generate_slots_complete_example : contains (starts offered) 600 ≡ true
generate_slots_complete_example =
    generate_slots_complete input 4 offered morning 600 (omega arith) thursday offered_day
      morning_listed refl (1, omega arith, omega arith) refl shown

generate_slots_total_example : (slots : List Slot) × (generate_slots input ≡ ok slots)
generate_slots_total_example = generate_slots_total input date_ok (omega arith, tt)

abbrev leap_day : IsoDate
leap_day = print_date 2028 2 29

leap_day_ok : is_calendar_date leap_day ≡ true
unfolding is_calendar_date is_iso_date print_date days_in_month is_leap
leap_day_ok = refl

end_of_day_example :
    (n : IsoDate) × (is_calendar_date n ≡ true)
    × (count_of n ≡ count_of leap_day + 1)
    × (instant_from_day_minutes utc leap_day 1440 ≡ instant_from_day_minutes utc n 0)
unfolding print_date
end_of_day_example = end_of_day utc leap_day leap_day_ok (omega arith)

next-leap_day : next_iso_date leap_day ≡ some (print_date 2028 3 1)
unfolding next_iso_date next_day print_date days_in_month is_leap
next-leap_day = refl

-- `Date` reads the 30th of February as a day of March.
next-rolled : next_iso_date (print_date 2026 2 30) ≡ some (print_date 2026 3 3)
unfolding next_iso_date next_day print_date days_in_month is_leap
next-rolled = refl

-- A date without a month: only the end of its day is refused.
end-no_month : instant_from_day_minutes utc (print_date 2026 13 45) 1440 ≡ err invalid_time
unfolding instant_from_day_minutes is_iso_date next_iso_date print_date
end-no_month = refl

classify-free_iff_example : (classify (at 9) (at 10) (at 8) [] input.occupancy ≡ SlotState.free) ↔ (
    (at 8 < at 9)
    × All (Apart (record { start = at 9; end = at 10 })) []
    × All
        (λ (o : Occupancy). Apart (record { start = at 9; end = at 10 }) o.interval)
        input.occupancy)
classify-free_iff_example = classify-free_iff (at 9) (at 10) (at 8) [] input.occupancy
