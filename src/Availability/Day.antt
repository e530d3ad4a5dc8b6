-- ===== src/Availability/Day.antt =====
-- availability.service.ts, `getAvailability`: the slots of every court, with prices and free coaches.
use playslot.Prelude.{
  ℕ, ◌+◌, ◌*◌, Bool, true, false, not, ◌&&◌, Option, none, some, List, [], ◌∷◌, ◌++◌, map, any,
  filter, find, leb, ltb,
}
use playslot.Prelude.Int.{ℤ, sub_ℕ}
use playslot.Prelude.Result.{Result, ok, err}
use playslot.Prelude.Sort.{sort}
use playslot.Domain.Time.{
  Instant, Interval, IsoDate, instant_from_day_minutes, weekday_in_zone, intervals_overlap,
}
use playslot.Domain.Slots.{SlotState, GenerateSlotsInput, Slot, generate_slots}
use playslot.Domain.Pricing.{
  PriceRuleLike, ResolvedPrice, PricingError, or_else, add_all, resolve_price,
}
use playslot.Memberships.{discount_percent, apply_discount}
use playslot.Store.Tables.{Store, Club, Resource, ResourceType, Sport}
use playslot.Store.Action.{Action, app_exception, not_found, ◌>>=◌, pure, gets, or_throw, lift}
use playslot.Booking.Slot.{Env, in_club, open_at, is_active_club, load_price_rules}
use playslot.Availability.{
  CoachAvail, AvailabilityQuery, AvailabilitySlot, CourtDto, AvailabilityResponse, within_day,
  occupancy, load_coach_availability,
}

-- `slotIntervalMin < 60`
abbrev half_hours : Club → Bool
half_hours club = ltb club.slot_interval_min 60

-- What is read before the loop over the courts.
pub record Day : Type 0 where
  pub club : Club
  pub date : IsoDate
  pub weekday : ℕ
  pub period : Interval
  pub now : Instant
  pub user_id : Option ℕ
  pub duration : Option ℕ
  pub price_rules : List PriceRuleLike
  pub discount : ℤ
  pub coaches : List CoachAvail

abbrev same_sport : Sport → Sport → Bool
same_sport Sport.tennis Sport.tennis = true
same_sport Sport.table_tennis Sport.table_tennis = true
same_sport Sport.badminton Sport.badminton = true
same_sport Sport.padel Sport.padel = true
same_sport Sport.football Sport.football = true
same_sport Sport.basketball Sport.basketball = true
same_sport Sport.volleyball Sport.volleyball = true
same_sport Sport.beach_tennis Sport.beach_tennis = true
same_sport Sport.beach_volleyball Sport.beach_volleyball = true
same_sport Sport.pickleball Sport.pickleball = true
same_sport Sport.squash Sport.squash = true
same_sport a b = false

abbrev is_sport : Option Sport → Option Sport → Bool
is_sport none s = true
is_sport (some a) none = false
is_sport (some a) (some b) = same_sport a b

abbrev pub is_court : AvailabilityQuery → Resource → Bool
is_court query r =
    in_club query.club_id r.club_id
    && (elim r.type [ ResourceType.court ↦ true | _ ↦ false ]
        && (r.active && is_sport query.sport r.sport))

-- `exceptions.filter((e) => e.resourceId === court.id)`
unfoldable pub closures_of : Interval → Resource → List Interval
closures_of day court = filter (within_day day) court.exceptions

unfoldable pub slots_input : Day → Resource → Store → GenerateSlotsInput
slots_input day court s = record {
  resource = record {
    id = court.id;
    slot_interval_min = day.club.slot_interval_min;
    min_reservation_min = court.min_reservation_min;
    allow_half_hour = half_hours day.club;
  };
  rules = court.availability_rules;
  closures = closures_of day.period court;
  occupancy = occupancy day.user_id day.club.id day.period day.now court.id s;
  iso_date = day.date;
  zone = day.club.zone;
  duration_min = or_else day.duration court.min_reservation_min;
  now = day.now;
}

-- No price where no rule is for the slot.
abbrev pub price_shown : ℤ → Result PricingError ResolvedPrice → Option ℤ
price_shown discount (ok p) = some (apply_discount p.price_cents discount)
price_shown discount (err e) = none

unfoldable pub slot_price : Env → Day → ℕ → Resource → Slot → Option ℤ
slot_price env day duration court slot = price_shown day.discount (
    resolve_price env.month_day day.price_rules (record {
      weekday = day.weekday;
      slot_start_min = slot.start_min;
      slot_end_min = slot.start_min + duration;
      duration_min = duration;
      date = slot.start;
      resource_id = some court.id;
      service_id = none;
      time_zone = none;
    }))

abbrev pub slot_time : Slot → Interval
slot_time slot = record { start = slot.start; end = slot.end }

unfoldable pub is_coach_free : ℕ → ℕ → Slot → CoachAvail → Bool
is_coach_free weekday duration slot co =
    any (open_at weekday slot.start_min (slot.start_min + duration)) co.rules
    && not (any (λ b. intervals_overlap b (slot_time slot)) co.busy)

unfoldable pub coaches_for : Day → ℕ → Slot → List ℕ
coaches_for day duration slot = elim slot.state [
  | SlotState.free ↦
      map (λ (co : CoachAvail). co.coach_profile_id)
        (filter (is_coach_free day.weekday duration slot) day.coaches)
  | _ ↦ []
]

-- `[...new Set(nums)].sort((a, b) => a - b)`
unfoldable pub uniq : List ℕ → List ℕ
uniq nums = sort sub_ℕ (add_all [] nums)

unfoldable pub durations : ℕ → ℕ → List ℕ
unfolding uniq
durations min_reservation_min duration =
    filter (λ d. leb d 240) (uniq (min_reservation_min ∷ duration ∷ duration * 2 ∷ []))

unfoldable pub slot_dto : Env → Day → Resource → Slot → AvailabilitySlot
slot_dto env day court slot =
    let duration = or_else day.duration court.min_reservation_min in
    record {
      resource_id = court.id;
      start = slot.start;
      end = slot.end;
      state = slot.state;
      price_cents = slot_price env day duration court slot;
      durations_min = durations court.min_reservation_min duration;
      coach_ids = coaches_for day duration slot;
      min_reservation_min = court.min_reservation_min;
      allow_half_hour = half_hours day.club;
    }

-- The loop over the courts.
unfoldable pub court_slots : Env → Day → List Resource → Action (List AvailabilitySlot)
court_slots env day [] = pure []
court_slots env day (court ∷ courts) = do
  input ← gets (slots_input day court)
  generated ← lift (generate_slots input)
  rest ← court_slots env day courts
  pure (map (slot_dto env day court) generated ++ rest)

abbrev court_dto : Club → Resource → CourtDto
court_dto club c = record {
  id = c.id;
  name = c.name;
  surface = c.surface;
  is_indoor = c.is_indoor;
  has_lighting = c.has_lighting;
  min_reservation_min = c.min_reservation_min;
  allow_half_hour = half_hours club;
}

-- The lengths that the club sells, or the interval where it names none.
abbrev booking_durations : Club → List ℕ
booking_durations club = elim club.booking_durations_min [
  | [] ↦ club.slot_interval_min ∷ []
  | d ∷ ds ↦ sort sub_ℕ (d ∷ ds)
]

abbrev pub by_name : Env → Resource → Resource → ℤ
by_name env a b = env.name_order a.name b.name

unfoldable pub get_availability :
    Env → Instant → AvailabilityQuery → Option ℕ → Action AvailabilityResponse
get_availability env now query user_id = do
  club ←
      or_throw (← gets (λ s. find (is_active_club query.club_id) s.clubs))
        (app_exception not_found "")
  day_start ← lift (instant_from_day_minutes club.zone query.date 0)
  day_end ← lift (instant_from_day_minutes club.zone query.date (24 * 60))
  weekday ← lift (weekday_in_zone club.zone query.date)
  let period : Interval = record { start = day_start; end = day_end }
  courts ← gets (λ s. sort (by_name env) (filter (is_court query) s.resources))
  price_rules ← gets (load_price_rules query.club_id)
  discount ← gets (discount_percent query.club_id user_id now)
  coaches ← gets (load_coach_availability query.club_id period)
  slots ←
      court_slots env
        (record {
          club = club;
          date = query.date;
          weekday = weekday;
          period = period;
          now = now;
          user_id = user_id;
          duration = query.duration;
          price_rules = price_rules;
          discount = discount;
          coaches = coaches;
        })
        courts
  pure (record {
    date = query.date;
    timezone = club.zone;
    currency = club.currency;
    slot_interval_min = club.slot_interval_min;
    booking_durations_min = booking_durations club;
    courts = map (court_dto club) courts;
    slots = slots;
  })
