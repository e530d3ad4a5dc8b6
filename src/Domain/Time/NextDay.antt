-- ===== src/Domain/Time/NextDay.antt =====
-- The end of a day in time.ts, 1440 minutes after midnight: it is the midnight that begins the day
-- which the calendar has next.
use playslot.Prelude.{
  ℕ, zero, suc, ◌+◌, ◌-◌, ◌/◌, ◌≤◌, ◌<◌, ◌≡◌, refl, sym, ◌∙◌, true, false, Bool-cases, inl, inr,
  arith, ltb, if◌then◌else◌,
}
use playslot.Domain.Time.{Zone, IsoDate, instant_from_day_minutes}
use playslot.Domain.Time.Minutes.{calendar-next, at_midnight, at_end}
use playslot.Domain.Time.Calendar.{
  is_calendar_date, print_date-is_iso_date, next_day, days_in_month, is_leap, print_date, number,
  digit, year_of, month_of, day_of,
}

year_length : ℕ → ℕ
year_length y = if is_leap y then 366 else 365

days_of_years : ℕ → ℕ
days_of_years zero = 0
days_of_years (suc y) = days_of_years y + year_length y

-- The days of the first months of a year.
days_of_months : ℕ → ℕ → ℕ
days_of_months y zero = 0
days_of_months y (suc m) = days_of_months y m + days_in_month y (suc m)

-- The days of the years, of the months and of the month that a date ends: dates counted one by one.
unfoldable pub day_count : ℕ → ℕ → ℕ → ℕ
unfolding days_of_years days_of_months year_length
day_count y m d = days_of_years y + days_of_months y (m - 1) + d

year_months : (y : ℕ) → days_of_months y 12 ≡ year_length y
unfolding days_of_months year_length days_in_month
year_months y = elim (Bool-cases (is_leap y)) [ inl e ↦ rw e refl | inr e ↦ rw e refl ]

number-digits : (n : ℕ) → n < 100 → number (digit (n / 10)) (digit n) ≡ n
number-digits n h = omega arith

year_of-print : (y m d : ℕ) → y < 10_000 → year_of (print_date y m d) ≡ y
unfolding print_date
year_of-print y m d h = omega arith

month_of-print : (y m d : ℕ) → m < 100 → month_of (print_date y m d) ≡ m
unfolding print_date
month_of-print y m d h = omega arith

day_of-print : (y m d : ℕ) → d < 100 → day_of (print_date y m d) ≡ d
unfolding print_date
day_of-print y m d h = omega arith

-- The date as such a count.
abbrev pub count_of : IsoDate → ℕ
count_of d = day_count (year_of d) (month_of d) (day_of d)

month-bounds : (y m : ℕ) → (28 ≤ days_in_month y m) × (days_in_month y m ≤ 31)
unfolding days_in_month
month-bounds y m = ground arith

-- A printed date is that date.
IsPrinted : ℕ → ℕ → ℕ → IsoDate → Type 0
IsPrinted y m d n = (is_calendar_date n ≡ true) × (count_of n ≡ day_count y m d)

print-IsPrinted :
    (y m d : ℕ)
    → y < 10_000
    → 1 ≤ m
    → m ≤ 12
    → 1 ≤ d
    → d ≤ days_in_month y m
    → IsPrinted y m d (print_date y m d)
unfolding is_calendar_date IsPrinted
print-IsPrinted y m d a b c e f =
    let (low, high) = month-bounds y m in
    rw (year_of-print y m d a, month_of-print y m d (omega arith), day_of-print y m d (omega arith))
      (ground (arith, print_date-is_iso_date y m d), refl)

count_day : (y m d : ℕ) → day_count y m (d + 1) ≡ day_count y m d + 1
unfolding day_count
count_day y m d = omega arith

count_month :
    (y m d : ℕ) → 1 ≤ m → d ≡ days_in_month y m → day_count y (m + 1) 1 ≡ day_count y m d + 1
unfolding day_count days_of_months
count_month y zero d a e = absurd (omega arith)
count_month y (suc k) d a e =
    let next : suc k + 1 - 1 ≡ suc k = omega arith in
    let this : suc k - 1 ≡ k = omega arith in rw (next, this) (omega (arith, e))

years-next : (y : ℕ) → days_of_years (y + 1) ≡ days_of_years y + year_length y
unfolding days_of_years
years-next y = let next : y + 1 ≡ suc y = omega arith in rw next refl

count_year : (y d : ℕ) → d ≡ days_in_month y 12 → day_count (y + 1) 1 1 ≡ day_count y 12 d + 1
unfolding day_count days_of_months
count_year y d e =
    let whole : days_of_months y 11 + days_in_month y 12 ≡ year_length y = year_months y in
    omega (arith, e, whole, years-next y)

next-count :
    (y m d : ℕ)
    → y < 9999
    → 1 ≤ m
    → m ≤ 12
    → 1 ≤ d
    → d ≤ days_in_month y m
    → (is_calendar_date (next_day y m d) ≡ true) × (count_of (next_day y m d) ≡ day_count y m d + 1)
unfolding next_day IsPrinted
next-count y m d a b c e f =
    let inside : ltb (days_in_month y m) d ≡ false = ground arith in
    rw inside (elim (Bool-cases (ltb d (days_in_month y m))) [
      | inl within ↦
          let (cal, same) =
            print-IsPrinted y m (d + 1) (omega arith) b c (omega arith) (ground arith) in
          rw within (cal, same ∙ count_day y m d)
      | inr last ↦ rw last (elim (Bool-cases (ltb m 12)) [
        | inl more ↦
            let whole : d ≡ days_in_month y m = ground arith in
            let (low, high) = month-bounds y (m + 1) in
            let (cal, same) =
              print-IsPrinted y (m + 1) 1 (omega arith) (omega arith) (ground arith) (omega arith)
                (omega arith) in
            rw more (cal, same ∙ count_month y m d b whole)
        | inr december ↦
            let is_last : m ≡ 12 = ground arith in
            let in_month : d ≡ days_in_month y m = ground arith in
            let whole : d ≡ days_in_month y 12 = rw is_last at in_month in
            let early : ltb y 9999 ≡ true = ground arith in
            let (low, high) = month-bounds (y + 1) 1 in
            let (cal, same) =
              print-IsPrinted (y + 1) 1 1 (omega arith) (omega arith) (omega arith) (omega arith)
                (omega arith) in
            rw (december, early) (cal, same ∙ rw is_last (count_year y d whole))
      ])
    ])

-- On a date of the calendar, of a year before 9999, 1440 minutes after midnight are the midnight that
-- begins another date of the calendar, the one that is one day later when dates are counted day by day
-- from their years, months and days.
pub end_of_day :
    (zone : Zone) (d : IsoDate)
    → is_calendar_date d ≡ true
    → year_of d < 9999
    → (n : IsoDate) × (is_calendar_date n ≡ true)
      × (count_of n ≡ count_of d + 1)
      × (instant_from_day_minutes zone d 1440 ≡ instant_from_day_minutes zone n 0)
unfolding is_calendar_date
end_of_day zone d fine early =
    let y = year_of d in
    let m = month_of d in
    let k = day_of d in
    let (low, high) = month-bounds y m in
    let (cal, later) =
      next-count y m k early (ground arith) (ground arith) (ground arith) (ground arith) in
    let n = next_day y m k in
    let (is_date, next) = calendar-next d fine in
    let (is_next, _) = calendar-next n cal in
    (n, cal, later, at_end zone d n is_date next ∙ sym (at_midnight zone n is_next))
