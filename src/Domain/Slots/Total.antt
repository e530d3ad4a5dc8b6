-- ===== src/Domain/Slots/Total.antt =====
-- When `generateSlots` returns: it throws only on a date that the calendar does not have or a window
-- that ends after the day does, and its loops end because the step is positive.
use playslot.Prelude.{
  ℕ, ◌+◌, ◌≤◌, ◌<◌, ◌≡◌, refl, true, List, [], ◌∷◌, All, All-imp, All-filter, ◌++◌, ◌*◌, ◌/◌, ◌%◌,
  suc, filter, Bool-cases, inl, inr, arith, leb, contains,
}
use playslot.Prelude.Int.{pos, pos_part, ◌+ℤ◌}
use playslot.Prelude.Result.{ok}
use playslot.Prelude.Sort.{sort}
use playslot.Domain.Time.{Instant, is_calendar_date, weekday_in_zone}
use playslot.Domain.Time.Minutes.{instant_from_day_minutes_total}
use playslot.Domain.Slots.{
  GenerateSlotsInput, AvailabilityRuleLike, Slot, Loop, slot_at, half_hour_refused, reads_back,
  visit, visit_from, visit_all, visit_windows, is_window, by_start, generate_slots, step,
}
use playslot.Domain.Slots.Minutes.{start_minutes-OnGrid, start_minutes_total}

module _ (input : GenerateSlotsInput) (date_ok : is_calendar_date input.iso_date ≡ true) where
  visit_from_total :
      (loop : Loop) (m : ℕ) (start : Instant)
      → m + input.duration_min ≤ 1440
      → (next : Loop) × (visit_from input loop m start ≡ ok next)
  unfolding visit_from
  visit_from_total loop m start fit =
      let (end, e) =
        instant_from_day_minutes_total input.zone input.iso_date (m + input.duration_min) date_ok
          fit in
      elim (Bool-cases (reads_back input.zone start m)) [
        | inl r ↦ (
          record { seen = m ∷ loop.seen; slots = loop.slots ++ slot_at input m start end ∷ [] },
          ground arith,
        )
        | inr r ↦ (record { seen = m ∷ loop.seen; slots = loop.slots }, ground arith)
      ]

  visit_total :
      (loop : Loop) (m : ℕ)
      → m + input.duration_min ≤ 1440
      → (next : Loop) × (visit input loop m ≡ ok next)
  unfolding visit
  visit_total loop m fit =
      let (start, e) =
        instant_from_day_minutes_total input.zone input.iso_date m date_ok (omega arith) in
      let (next, k) = visit_from_total loop m start fit in
      elim (Bool-cases (half_hour_refused input.resource m)) [
        | inl r ↦ (loop, ground arith)
        | inr r ↦ elim (Bool-cases (contains loop.seen m)) [
          | inl s ↦ (loop, ground arith)
          | inr s ↦ (next, ground arith)
        ]
      ]

  visit_all_total :
      (ms : List ℕ) (loop : Loop)
      → All (λ m. m + input.duration_min ≤ 1440) ms
      → (next : Loop) × (visit_all input ms loop ≡ ok next)
  unfolding visit_all
  visit_all_total [] loop a = (loop, refl)
  visit_all_total (m ∷ ms) loop a =
      let (mid, e) = visit_total loop m a.0 in
      let (next, k) = visit_all_total ms mid a.1 in (next, rw e k)

  -- The loop over a window goes on by at least a minute.
  step_pos : 0 < step input.resource
  step_pos = ground arith

  visit_windows_total :
      (ws : List AvailabilityRuleLike) (loop : Loop)
      → All (λ w. w.end_min ≤ 1440) ws
      → (next : Loop) × (visit_windows input ws loop ≡ ok next)
  unfolding visit_windows
  visit_windows_total [] loop a = (loop, refl)
  visit_windows_total (w ∷ ws) loop a =
      let (ms, made) =
        start_minutes_total (step input.resource) input.duration_min w.end_min (suc w.end_min)
          w.start_min step_pos (omega arith) in
      let (mid, e) = visit_all_total ms loop (
        All-imp _ _ ms (λ m (k, at, fit). omega arith)
          (start_minutes-OnGrid (step input.resource) input.duration_min w.end_min (suc w.end_min)
            w.start_min ms made)) in
      let (next, k) = visit_windows_total ws mid a.1 in (next, rw (made, e) k)

  weekday_total : (d : ℕ) × (weekday_in_zone input.zone input.iso_date ≡ ok d)
  unfolding weekday_in_zone
  weekday_total =
      let (noon, e) =
        instant_from_day_minutes_total input.zone input.iso_date (12 * 60) date_ok (omega arith) in
      ((pos_part (pos noon +ℤ input.zone.get_timezone_offset noon) / 86_400_000 + 4) % 7, rw e refl)

  -- On a date of the calendar, if no window ends after the day's 1440 minutes, the slots are returned.
  pub generate_slots_total :
      All (λ w. w.end_min ≤ 1440) input.rules
      → (slots : List Slot) × (generate_slots input ≡ ok slots)
  unfolding generate_slots
  generate_slots_total a = elim (Bool-cases (leb input.duration_min 0)) [
    | inl none_asked ↦ ([], rw none_asked)
    | inr asked ↦
        let (d, e) = weekday_total in
        let (loop, k) =
          visit_windows_total (filter (is_window d) input.rules) (record { seen = []; slots = [] })
            (All-filter (is_window d) _ input.rules a) in
        (sort by_start loop.slots, rw (asked, e) (rw k refl))
  ]
