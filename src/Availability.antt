-- ===== src/Availability.antt =====
-- apps/api/src/availability/availability.service.ts: what a club offers on a local date. The texts
-- that date-fns-tz prints for the instants of a slot are left as the instants. A map from courts to
-- their occupancy is a function of the court.
pub mod Day
pub mod Bookable
pub mod Booked
use playslot.Prelude.{
  ℕ, ◌+◌, ◌*◌, Bool, true, false, not, ◌&&◌, ◌||◌, String, Option, none, some, List, [], ◌∷◌, ◌++◌,
  map, any, filter, find, contains, leb, ltb, ◌==◌, if◌then◌else◌,
}
use playslot.Prelude.Int.{ℤ, sub_ℕ}
use playslot.Prelude.Result.{Result, ok, err}
use playslot.Prelude.Sort.{sort}
use playslot.Domain.Time.{
  Instant, Interval, Zone, IsoDate, instant_from_day_minutes, weekday_in_zone, intervals_overlap,
}
use playslot.Domain.Status.{ReservationStatus, status_eq, includes}
use playslot.Domain.Slots.{
  SlotState, OccupancyState, Occupancy, AvailabilityRuleLike, Slot, generate_slots,
}
use playslot.Domain.Pricing.{
  PriceRuleLike, ResolvedPrice, PricingError, or_else, add_all, resolve_price,
}
use playslot.Memberships.{discount_percent, apply_discount}
use playslot.Store.Tables.{
  Store, Sport, Club, CoachClub, Resource, ResourceType, Reservation, ReservationType, ResourceRow,
}
use playslot.Store.Action.{
  Action, app_exception, not_found, ◌>>=◌, ◌>>◌, pure, gets, or_throw, lift,
}
use playslot.Store.Rows.{find_reservation}
use playslot.Booking.Slot.{Env, in_club, load_price_rules}

pub record CoachAvail : Type 0 where
  pub coach_profile_id : ℕ
  pub rules : List AvailabilityRuleLike
  pub busy : List Interval

pub record AvailabilityQuery : Type 0 where
  pub club_id : ℕ
  pub date : IsoDate
  pub sport : Option Sport
  pub duration : Option ℕ

pub record AvailabilitySlot : Type 0 where
  pub resource_id : ℕ
  pub start : Instant
  pub end : Instant
  pub state : SlotState
  pub price_cents : Option ℤ
  pub durations_min : List ℕ
  pub coach_ids : List ℕ
  pub min_reservation_min : ℕ
  pub allow_half_hour : Bool

pub record CourtDto : Type 0 where
  pub id : ℕ
  pub name : String
  pub surface : Option String
  pub is_indoor : Option Bool
  pub has_lighting : Option Bool
  pub min_reservation_min : ℕ
  pub allow_half_hour : Bool

pub record AvailabilityResponse : Type 0 where
  pub date : IsoDate
  pub timezone : Zone
  pub currency : String
  pub slot_interval_min : ℕ
  pub booking_durations_min : List ℕ
  pub courts : List CourtDto
  pub slots : List AvailabilitySlot

abbrev pub occupying_statuses : List ReservationStatus
occupying_statuses =
    ReservationStatus.confirmed ∷ ReservationStatus.pending_payment
    ∷ ReservationStatus.pending_approval ∷ ReservationStatus.hold ∷ []

-- `startsAt < dayEnd && endsAt > dayStart`
abbrev pub within_day : Interval → Interval → Bool
within_day day period = ltb period.start day.end && ltb day.start period.end

abbrev pub time_of : Reservation → Interval
time_of r = record { start = r.starts_at; end = r.ends_at }

-- `!res.holdExpiresAt || res.holdExpiresAt <= now`
abbrev pub run_out : Instant → Option Instant → Bool
run_out now none = true
run_out now (some t) = leb t now

-- The reservations that the loop does not pass by.
unfoldable pub is_shown : ℕ → Interval → Instant → Reservation → Bool
is_shown club_id day now r =
    r.club_id == club_id
    && (includes occupying_statuses r.status
        && (within_day day (time_of r)
            && not (status_eq r.status ReservationStatus.hold && run_out now r.hold_expires_at)))

abbrev is_user : Option ℕ → ℕ → Bool
is_user none id = false
is_user (some user_id) id = id == user_id

abbrev state_for : Option ℕ → Reservation → OccupancyState
state_for user_id r = if is_user user_id r.user_id then OccupancyState.mine else elim r.type [
  | ReservationType.event ↦ OccupancyState.event
  | ReservationType.tournament ↦ OccupancyState.tournament
  | _ ↦ OccupancyState.reserved
]

-- What one reservation pushes on the list of a court: an entry for each of its rows there.
unfoldable pub pushes : Option ℕ → ℕ → Reservation → List ResourceRow → List Occupancy
pushes user_id court_id r [] = []
pushes user_id court_id r (row ∷ rows) =
    let rest = pushes user_id court_id r rows in
    if row.reservation_id == r.id && row.resource_id == court_id
    then record { interval = time_of r; state = state_for user_id r } ∷ rest
    else rest

-- `occByCourt.get(court.id) ?? []`
unfoldable pub occ_by_court : Option ℕ → ℕ → List ResourceRow → List Reservation → List Occupancy
occ_by_court user_id court_id rows [] = []
occ_by_court user_id court_id rows (r ∷ rs) =
    pushes user_id court_id r rows ++ occ_by_court user_id court_id rows rs

unfoldable pub occupancy : Option ℕ → ℕ → Interval → Instant → ℕ → Store → List Occupancy
unfolding occ_by_court
occupancy user_id club_id day now court_id s =
    occ_by_court user_id court_id s.rows (filter (is_shown club_id day now) s.reservations)

-- The reservations' times of the active rows of a coach.
unfoldable pub busy_times : ℕ → Interval → List Reservation → List ResourceRow → List Interval
busy_times resource_id day rs [] = []
busy_times resource_id day rs (row ∷ rows) =
    let rest = busy_times resource_id day rs rows in
    if row.is_active && row.resource_id == resource_id
    then elim (find_reservation row.reservation_id rs) [
      | none ↦ rest
      | some r ↦ if within_day day (time_of r) then time_of r ∷ rest else rest
    ]
    else rest

abbrev linked : ℕ → Store → List ℕ
linked club_id s =
    map (λ (l : CoachClub). l.coach_profile_id)
      (filter (λ (l : CoachClub). l.club_id == club_id) s.coach_clubs)

abbrev is_linked_coach : List ℕ → Resource → Bool
is_linked_coach ids r =
    elim r.type [ ResourceType.coach ↦ true | _ ↦ false ]
    && (r.active && elim r.coach_profile_id [ none ↦ false | some p ↦ contains ids p ])

-- `.filter((r) => r.coachProfileId !== null).map(…)`
unfoldable pub coach_avails : Interval → Store → List Resource → List CoachAvail
coach_avails day s [] = []
coach_avails day s (r ∷ rs) =
    let rest = coach_avails day s rs in
    elim r.coach_profile_id [
      | none ↦ rest
      | some p ↦
          record {
            coach_profile_id = p;
            rules = r.availability_rules;
            busy = busy_times r.id day s.reservations s.rows;
          }
          ∷ rest
    ]

unfoldable pub load_coach_availability : ℕ → Interval → Store → List CoachAvail
unfolding coach_avails
load_coach_availability club_id day s =
    coach_avails day s (filter (is_linked_coach (linked club_id s)) s.resources)
