-- ===== src/Domain/Slots.antt =====
-- packages/domain/src/availability.ts: the bookable slots of one resource on one local date.
-- The inner loop runs over the list of start minutes of a window, `start_minutes`; its fuel is more
-- than the number of its rounds, because the step is positive. A loop that uses up its fuel before its
-- test fails answers `out_of_fuel`, so that a result is never that of a loop which does not end.
pub mod Minutes
pub mod Visit
pub mod Rounds
pub mod Generated
pub mod Classified
pub mod Sorted
pub mod Offered
pub mod Total
use playslot.Prelude.{
  ℕ, zero, suc, ◌+◌, ◌/◌, ◌%◌, Bool, true, false, not, ◌&&◌, ◌||◌, Option, none, some, List, [],
  ◌∷◌, ◌++◌, map, any, filter, find, leb, ltb, ◌==◌, contains, if◌then◌else◌,
}
use playslot.Prelude.Int.{ℤ, sub_ℕ}
use playslot.Prelude.Result.{Result, ok, err, ◌>>=◌}
use playslot.Prelude.Sort.{sort}
use playslot.Domain.Time.{
  Zone, Instant, IsoDate, RangeError, out_of_fuel, Interval, instant_from_day_minutes,
  intervals_overlap, weekday_in_zone,
}

pub data SlotState : Type 0 where
  free reserved mine unavailable past event tournament : SlotState

pub data OccupancyState : Type 0 where
  reserved mine event tournament : OccupancyState

pub record Occupancy : Type 0 where
  pub interval : Interval
  pub state : OccupancyState

pub record AvailabilityRuleLike : Type 0 where
  pub weekday : ℕ
  pub start_min : ℕ
  pub end_min : ℕ

pub record ResourceConfig : Type 0 where
  pub id : ℕ
  pub slot_interval_min : ℕ
  pub min_reservation_min : ℕ
  pub allow_half_hour : Bool

pub record GenerateSlotsInput : Type 0 where
  pub resource : ResourceConfig
  pub rules : List AvailabilityRuleLike
  pub closures : List Interval
  pub occupancy : List Occupancy
  pub iso_date : IsoDate
  pub zone : Zone
  pub duration_min : ℕ
  pub now : Instant

pub record Slot : Type 0 where
  pub resource_id : ℕ
  pub start_min : ℕ
  pub start : Instant
  pub end : Instant
  pub state : SlotState

abbrev pub slot_state_of : OccupancyState → SlotState
slot_state_of OccupancyState.reserved = SlotState.reserved
slot_state_of OccupancyState.mine = SlotState.mine
slot_state_of OccupancyState.event = SlotState.event
slot_state_of OccupancyState.tournament = SlotState.tournament

unfoldable pub classify : Instant → Instant → Instant → List Interval → List Occupancy → SlotState
classify start end now closures occupancy =
    let slot : Interval = record { start = start; end = end } in
    if leb start now
    then SlotState.past
    else if any (λ c. intervals_overlap slot c) closures
    then SlotState.unavailable
    else elim (find (λ o. intervals_overlap slot o.interval) occupancy) [
      | none ↦ SlotState.free
      | some hit ↦ slot_state_of hit.state
    ]

-- `for (let m = startMin; m + durationMin <= endMin; m += step)`: the values of m.
unfoldable pub start_minutes : ℕ → ℕ → ℕ → ℕ → ℕ → Result RangeError (List ℕ)
start_minutes zero m step duration end = if leb (m + duration) end then err out_of_fuel else ok []
start_minutes (suc fuel) m step duration end =
    let rest = start_minutes fuel (m + step) step duration end in
    if leb (m + duration) end then rest >>= (λ ms. ok (m ∷ ms)) else ok []

-- The loop's variables: the minutes seen, the last one first, and the slots so far.
pub record Loop : Type 0 where
  pub seen : List ℕ
  pub slots : List Slot

-- The slot that the body pushes.
unfoldable pub slot_at : GenerateSlotsInput → ℕ → Instant → Instant → Slot
slot_at input m start end = record {
  resource_id = input.resource.id;
  start_min = m;
  start = start;
  end = end;
  state = classify start end input.now input.closures input.occupancy;
}

-- `!resource.allowHalfHour && m % 60 !== 0`
abbrev pub half_hour_refused : ResourceConfig → ℕ → Bool
half_hour_refused r m = not r.allow_half_hour && not (m % 60 == 0)

-- The local time of the instant reads as the minute that was meant.
abbrev pub reads_back : Zone → Instant → ℕ → Bool
reads_back z start m = z.format_hour start == m / 60 && z.format_minute start == m % 60

-- The body of the inner loop, from `const start` on.
unfoldable pub visit_from : GenerateSlotsInput → Loop → ℕ → Instant → Result RangeError Loop
visit_from input loop m start =
    let seen = m ∷ loop.seen in
    if not (reads_back input.zone start m)
    then ok (record { seen = seen; slots = loop.slots })
    else do
      end ← instant_from_day_minutes input.zone input.iso_date (m + input.duration_min)
      ok (record { seen = seen; slots = loop.slots ++ slot_at input m start end ∷ [] })

-- The body of the inner loop.
unfoldable pub visit : GenerateSlotsInput → Loop → ℕ → Result RangeError Loop
visit input loop m =
    if half_hour_refused input.resource m
    then ok loop
    else if contains loop.seen m
    then ok loop
    else instant_from_day_minutes input.zone input.iso_date m >>= visit_from input loop m

unfoldable pub visit_all : GenerateSlotsInput → List ℕ → Loop → Result RangeError Loop
visit_all input [] loop = ok loop
visit_all input (m ∷ ms) loop = visit input loop m >>= λ next. visit_all input ms next

abbrev pub step : ResourceConfig → ℕ
step r = if ltb 0 r.slot_interval_min then r.slot_interval_min else 30

unfoldable pub visit_windows :
    GenerateSlotsInput → List AvailabilityRuleLike → Loop → Result RangeError Loop
visit_windows input [] loop = ok loop
visit_windows input (w ∷ ws) loop =
    start_minutes (suc w.end_min) w.start_min (step input.resource) input.duration_min w.end_min
    >>= (λ ms. visit_all input ms loop)
    >>= λ next. visit_windows input ws next

abbrev pub is_window : ℕ → AvailabilityRuleLike → Bool
is_window weekday r = r.weekday == weekday && ltb r.start_min r.end_min

-- `(a, b) => a.startMin - b.startMin`
abbrev pub by_start : Slot → Slot → ℤ
by_start a b = sub_ℕ a.start_min b.start_min

unfoldable pub generate_slots : GenerateSlotsInput → Result RangeError (List Slot)
generate_slots input = if leb input.duration_min 0 then ok [] else do
  weekday ← weekday_in_zone input.zone input.iso_date
  let windows = filter (is_window weekday) input.rules
  loop ← visit_windows input windows (record { seen = []; slots = [] })
  ok (sort by_start loop.slots)
