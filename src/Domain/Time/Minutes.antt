-- ===== src/Domain/Time/Minutes.antt =====
-- `instantFromDayMinutes` of time.ts: when it returns an instant.
use playslot.Prelude.{ℕ, ◌/◌, ◌%◌, ◌≤◌, ◌≡◌, refl, true, some, ◌==◌, Bool-cases, inl, inr, arith}
use playslot.Prelude.Result.{ok}
use playslot.Domain.Time.{Zone, Instant, IsoDate, instant_from_day_minutes}
use playslot.Domain.Time.Calendar.{
  is_iso_date, is_calendar_date, next_iso_date, next_day, days_in_month, year_of, month_of, day_of,
}

days-bound : (y m : ℕ) → days_in_month y m ≤ 31
unfolding days_in_month
days-bound y m = ground arith

-- A date of the calendar has the form that the pattern asks for, and a next date.
pub calendar-next :
    (d : IsoDate)
    → is_calendar_date d ≡ true
    → (is_iso_date d ≡ true)
      × (next_iso_date d ≡ some (next_day (year_of d) (month_of d) (day_of d)))
unfolding is_calendar_date next_iso_date
calendar-next d fine =
    (ground (arith, fine), ground (arith, fine, days-bound (year_of d) (month_of d)))

module _ (zone : Zone) (d : IsoDate) where
  pub at_midnight :
      is_iso_date d ≡ true → instant_from_day_minutes zone d 0 ≡ ok (zone.from_zoned_time d 0 0)
  unfolding instant_from_day_minutes
  at_midnight h = rw h refl

  pub at_end :
      (n : IsoDate)
      → is_iso_date d ≡ true
      → next_iso_date d ≡ some n
      → instant_from_day_minutes zone d 1440 ≡ ok (zone.from_zoned_time n 0 0)
  unfolding instant_from_day_minutes
  at_end n h e = rw (h, e) refl

  -- A date of the calendar and at most 1440 minutes are resolved to an instant.
  pub instant_from_day_minutes_total :
      (m : ℕ)
      → is_calendar_date d ≡ true
      → m ≤ 1440
      → (t : Instant) × (instant_from_day_minutes zone d m ≡ ok t)
  unfolding instant_from_day_minutes
  instant_from_day_minutes_total m fine k =
      let (h, e) = calendar-next d fine in
      let n = next_day (year_of d) (month_of d) (day_of d) in
      elim (Bool-cases (m == 1440)) [
        | inl last ↦
            let is_last : m ≡ 1440 = ground arith in
            (zone.from_zoned_time n 0 0, rw is_last (at_end n h e))
        | inr other ↦ (zone.from_zoned_time d (m / 60) (m % 60), ground arith)
      ]
