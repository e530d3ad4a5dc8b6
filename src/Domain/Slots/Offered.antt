-- ===== src/Domain/Slots/Offered.antt =====
-- `generateSlots` of availability.ts as a whole: what is offered, and nothing else.
use playslot.Prelude.{
  ℕ, ◌<◌, ◌≡◌, true, false, List, [], contains, All, All_of_mem, Mem, filter, mem-filter_of, arith,
}
use playslot.Prelude.Result.{ok, >>=-eq-ok}
use playslot.Prelude.Sort.{sort}
use playslot.Prelude.Select.{All-sort}
use playslot.Domain.Time.{weekday_in_zone}
use playslot.Domain.Slots.{
  GenerateSlotsInput, AvailabilityRuleLike, Slot, Loop, half_hour_refused, visit_windows, is_window,
  by_start, generate_slots,
}
use playslot.Domain.Slots.Rounds.{starts, IsShown, StandsFor, Inv}
use playslot.Domain.Slots.Generated.{Fits, InWindow, visit_windows-Inv, visit_windows-visits}
use playslot.Domain.Slots.Sorted.{IsIncreasing, sort-IsIncreasing, contains-sort}

module _ (input : GenerateSlotsInput) (weekday : ℕ) where
  -- The day's windows.
  abbrev pub windows : List AvailabilityRuleLike
  windows = filter (is_window weekday) input.rules

  abbrev fresh : Loop
  fresh = record { seen = []; slots = [] }

  fresh-Inv : Inv input (InWindow input windows) fresh
  fresh-Inv = record { good = tt; distinct = tt; listed = λ m h. cc; shown = λ m h s. cc }

  -- The loop that a run which returns has made.
  run :
      (slots : List Slot)
      → 0 < input.duration_min
      → weekday_in_zone input.zone input.iso_date ≡ ok weekday
      → generate_slots input ≡ ok slots
      → (loop : Loop) × (visit_windows input windows fresh ≡ ok loop)
        × (slots ≡ sort by_start loop.slots)
  unfolding generate_slots
  run slots p day h =
      let (loop, e, k) =
        >>=-eq-ok (visit_windows input windows fresh) (λ l. ok (sort by_start l.slots)) {b = slots}
          (ground arith) in
      (loop, e, ground arith)

  -- For a positive duration, every slot that is returned stands for a minute of one of the day's
  -- windows, on the window's grid and with room for the duration, which the local clock shows and
  -- which is a whole hour where half hours are not allowed; it carries the instants and the state
  -- of that minute; and the slots come in strictly increasing order.
  pub generate_slots_sound :
      (slots : List Slot)
      → 0 < input.duration_min
      → weekday_in_zone input.zone input.iso_date ≡ ok weekday
      → generate_slots input ≡ ok slots
      → All (StandsFor input (InWindow input windows)) slots × IsIncreasing slots
  generate_slots_sound slots p day h =
      let (loop, e, same) = run slots p day h in
      let v =
        visit_windows-Inv input windows windows fresh loop (All_of_mem _ windows (λ w m. m))
          fresh-Inv e in
      rw same (All-sort _ by_start loop.slots v.good, sort-IsIncreasing loop.slots v.distinct)

  -- For a positive duration, every minute of a window of that day, on its grid and with room for
  -- the duration, that is not refused as a half hour and that the local clock shows, is the start
  -- of a slot that is returned.
  pub generate_slots_complete :
      (slots : List Slot) (w : AvailabilityRuleLike) (m : ℕ)
      → 0 < input.duration_min
      → weekday_in_zone input.zone input.iso_date ≡ ok weekday
      → generate_slots input ≡ ok slots
      → Mem w input.rules
      → is_window weekday w ≡ true
      → Fits input w m
      → half_hour_refused input.resource m ≡ false
      → IsShown input m
      → contains (starts slots) m ≡ true
  generate_slots_complete slots w m p day h l today fit whole shown =
      let (loop, e, same) = run slots p day h in
      let v =
        visit_windows-Inv input windows windows fresh loop (All_of_mem _ windows (λ x k. k))
          fresh-Inv e in
      let seen =
        visit_windows-visits input windows fresh loop w m
          (mem-filter_of (is_window weekday) input.rules l today) fit whole e in
      rw (same, contains-sort loop.slots m) (v.shown m seen shown)
