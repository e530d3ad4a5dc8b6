-- ===== src/Domain/Time.antt =====
-- packages/domain/src/time.ts: instants, calendar dates of a club, half-open intervals.
-- An instant is its number of milliseconds since 1970; the program has no earlier one. Texts are
-- lists of character codes. date-fns-tz is the parameter `Zone`.
pub mod Calendar
pub mod Minutes
pub mod NextDay
pub mod Overlap
unfoldable pub use Calendar.{IsoDate, is_iso_date, is_calendar_date, next_iso_date, print_date}
use playslot.Prelude.{
  ℕ, ◌+◌, ◌*◌, ◌/◌, ◌%◌, Bool, ◌&&◌, ◌||◌, ltb, ◌==◌, if◌then◌else◌, not, Option, none, some,
}
use playslot.Prelude.Int.{ℤ, pos, ◌+ℤ◌, pos_part, round_div, sub_ℕ}
use playslot.Prelude.Result.{Result, ok, err, ◌>>=◌, ◌>>◌, throw_if}
use Calendar.{IsoDate, is_iso_date, next_iso_date}

abbrev pub Instant : Type 0
Instant = ℕ

-- What the code uses of date-fns-tz in one time zone: the instant of a local wall-clock time
-- (the date "YYYY-MM-DD", the hour, the minute), the offset from UTC in milliseconds, and the local
-- date ("yyyy-MM-dd") and time ("HH:mm", as two numbers) of an instant.
pub record Zone : Type 0 where
  pub from_zoned_time : IsoDate → ℕ → ℕ → Instant
  pub get_timezone_offset : Instant → ℤ
  pub format_date : Instant → IsoDate
  pub format_hour : Instant → ℕ
  pub format_minute : Instant → ℕ

pub data RangeError : Type 0 where
  bad_iso_date : IsoDate → RangeError
  minutes_out_of_range : ℕ → RangeError
  -- of `toISOString`
  invalid_time : RangeError
  -- no error of the program: a loop of the model has used up its fuel before it ended
  out_of_fuel : RangeError

unfoldable pub instant_from_day_minutes : Zone → IsoDate → ℕ → Result RangeError Instant
instant_from_day_minutes zone iso_date minutes_from_midnight = do
  throw_if (not (is_iso_date iso_date)) (bad_iso_date iso_date)
  throw_if (ltb (24 * 60) minutes_from_midnight) (minutes_out_of_range minutes_from_midnight)
  let hh = minutes_from_midnight / 60
  let mm = minutes_from_midnight % 60
  if minutes_from_midnight == 24 * 60
      then elim (next_iso_date iso_date) [
        | none ↦ err invalid_time
        | some next_iso ↦ ok (zone.from_zoned_time next_iso 0 0)
      ]
      else ok (zone.from_zoned_time iso_date hh mm)

-- Minutes from one instant to another, rounded.
unfoldable pub minutes_between : Instant → Instant → ℤ
unfolding round_div
minutes_between a b = round_div (sub_ℕ b a) 60_000

pub record Interval : Type 0 where
  pub start : Instant
  pub end : Instant

unfoldable pub intervals_overlap : Interval → Interval → Bool
intervals_overlap a b = ltb a.start b.end && ltb b.start a.end

-- packages/domain/src/availability.ts: the weekday of a local date, 0 for Sunday. The first day of
-- 1970 was a Thursday.
unfoldable pub weekday_in_zone : Zone → IsoDate → Result RangeError ℕ
unfolding instant_from_day_minutes ◌+ℤ◌
weekday_in_zone zone iso_date = do
  noon_utc ← instant_from_day_minutes zone iso_date (12 * 60)
  let offset_ms = zone.get_timezone_offset noon_utc
  let local = pos_part (pos noon_utc +ℤ offset_ms)
  ok ((local / 86_400_000 + 4) % 7)
