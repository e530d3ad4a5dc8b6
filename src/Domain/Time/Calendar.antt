-- ===== src/Domain/Time/Calendar.antt =====
-- Calendar dates written "YYYY-MM-DD", as the texts that time.ts tests and takes apart.
use playslot.Prelude.{
  ℕ, ◌+◌, ◌-◌, ◌*◌, ◌/◌, ◌%◌, ◌≡◌, Bool, true, false, ◌&&◌, ◌||◌, not, List, [], ◌∷◌, leb, ltb,
  Option, none, some, ◌==◌, if◌then◌else◌, arith,
}

-- Character codes.
abbrev pub IsoDate : Type 0
IsoDate = List ℕ

abbrev pub is_digit : ℕ → Bool
is_digit c = leb b'0' c && leb c b'9'

-- `/^\d{4}-\d{2}-\d{2}$/.test(isoDate)`
unfoldable pub is_iso_date : IsoDate → Bool
is_iso_date (a ∷ b ∷ c ∷ d ∷ p ∷ e ∷ f ∷ q ∷ g ∷ h ∷ []) =
    is_digit a
    && (is_digit b
        && (is_digit c
            && (is_digit d
                && (p == b'-'
                    && (is_digit e && (is_digit f && (q == b'-' && (is_digit g && is_digit h))))))))
is_iso_date other = false

abbrev pub digit : ℕ → ℕ
digit n = b'0' + n % 10

-- `toISOString().slice(0, 10)`, for the years up to 9999.
unfoldable pub print_date : ℕ → ℕ → ℕ → IsoDate
print_date y m d =
    digit (y / 1000)
    ∷ digit (y / 100)
    ∷ digit (y / 10)
    ∷ digit y
    ∷ b'-'
    ∷ digit (m / 10)
    ∷ digit m
    ∷ b'-'
    ∷ digit (d / 10)
    ∷ digit d
    ∷ []

unfoldable pub is_leap : ℕ → Bool
is_leap y = (y % 4 == 0 && not (y % 100 == 0)) || y % 400 == 0

unfoldable pub days_in_month : ℕ → ℕ → ℕ
unfolding is_leap
days_in_month y m =
    if m == 2
    then (if is_leap y then 29 else 28)
    else if m == 4 || (m == 6 || (m == 9 || m == 11))
    then 30
    else 31

-- The numbers that stand in a date.
abbrev pub number : ℕ → ℕ → ℕ
number a b = (a - b'0') * 10 + (b - b'0')

abbrev pub year_of : IsoDate → ℕ
year_of (a ∷ b ∷ c ∷ d ∷ rest) = number a b * 100 + number c d
year_of other = 0

abbrev pub month_of : IsoDate → ℕ
month_of (a ∷ b ∷ c ∷ d ∷ p ∷ e ∷ f ∷ rest) = number e f
month_of other = 0

abbrev pub day_of : IsoDate → ℕ
day_of (a ∷ b ∷ c ∷ d ∷ p ∷ e ∷ f ∷ q ∷ g ∷ h ∷ rest) = number g h
day_of other = 0

-- The first ten characters of "+010000-01-01T00:00:00.000Z".
abbrev after_9999 : IsoDate
after_9999 = b'+' ∷ b'0' ∷ b'1' ∷ b'0' ∷ b'0' ∷ b'0' ∷ b'0' ∷ b'-' ∷ b'0' ∷ b'1' ∷ []

-- `setUTCDate(getUTCDate() + 1)` and `toISOString().slice(0, 10)`. `Date` takes a day up to 31 in every
-- month: the 30th of February is two days, or in a leap year one day, into March.
unfoldable pub next_day : ℕ → ℕ → ℕ → IsoDate
unfolding days_in_month
next_day y m d =
    if ltb (days_in_month y m) d
    then print_date y (m + 1) (d - days_in_month y m + 1)
    else if ltb d (days_in_month y m)
    then print_date y m (d + 1)
    else if ltb m 12
    then print_date y (m + 1) 1
    else if ltb y 9999
    then print_date (y + 1) 1 1
    else after_9999

-- The next calendar date, of a date of the form that the pattern asks for. A month that is not 1 to 12
-- or a day that is not 1 to 31 makes an invalid `Date`, of which `toISOString` throws.
unfoldable pub next_iso_date : IsoDate → Option IsoDate
unfolding next_day
next_iso_date d =
    if leb 1 (month_of d) && (leb (month_of d) 12 && (leb 1 (day_of d) && leb (day_of d) 31))
    then some (next_day (year_of d) (month_of d) (day_of d))
    else none

-- A date that the calendar has.
unfoldable pub is_calendar_date : IsoDate → Bool
is_calendar_date d =
    is_iso_date d
    && (leb 1 (month_of d)
        && (leb (month_of d) 12
            && (leb 1 (day_of d) && leb (day_of d) (days_in_month (year_of d) (month_of d)))))

pub print_date-is_iso_date : (y m d : ℕ) → is_iso_date (print_date y m d) ≡ true
unfolding print_date is_iso_date
print_date-is_iso_date y m d = ground arith
