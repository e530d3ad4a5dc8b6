-- ===== src/Booking/Csv.antt =====
-- reservations.service.ts, `exportCsv` and `csvCell`. Texts are lists of character codes.
pub mod RoundTrip
use playslot.Prelude.{
  ℕ, zero, suc, ◌+◌, ◌*◌, ◌/◌, ◌%◌, Bool, true, false, not, ◌&&◌, ◌||◌, String, Option, none, some,
  List, [], ◌∷◌, ◌++◌, map, any, filter, find, leb, ltb, ◌==◌, if◌then◌else◌,
}
use playslot.Prelude.Int.{ℤ, pos, negsuc, sub_ℕ}
use playslot.Prelude.Text.{codes}
use playslot.Prelude.Result.{ok, err}
use playslot.Prelude.Sort.{sort}
use playslot.Domain.Time.{Instant, Zone, IsoDate, is_iso_date, instant_from_day_minutes}
use playslot.Domain.Status.{ReservationStatus}
use playslot.Store.Tables.{
  Store, User, Club, Resource, Reservation, ReservationType, ReservationSource, ResourceRow,
  Payment, PaymentStatus,
}
use playslot.Store.Action.{
  Action, app_exception, not_found, validation_failed, ◌>>=◌, ◌>>◌, pure, gets, or_throw, throw_if,
  lift,
}
use playslot.Booking.Notices.{find_user}

abbrev pub Text : Type 0
Text = List ℕ

abbrev pub quote : ℕ
quote = b'"'

abbrev pub comma : ℕ
comma = b','

-- Carriage return and line feed.
abbrev pub cr : ℕ
cr = 13

abbrev pub lf : ℕ
lf = 10

-- `[",\r\n]`
abbrev pub is_special : ℕ → Bool
is_special c = c == quote || (c == comma || (c == cr || c == lf))

-- `v.replace(/"/g, '""')`
unfoldable pub doubled : Text → Text
doubled [] = []
doubled (c ∷ cs) = let rest = doubled cs in if c == quote then quote ∷ quote ∷ rest else c ∷ rest

unfoldable pub csv_cell : Text → Text
unfolding doubled
csv_cell v = if any is_special v then quote ∷ (doubled v ++ quote ∷ []) else v

-- `row.map(csvCell).join(',')`
unfoldable pub csv_row : List Text → Text
csv_row [] = []
csv_row (v ∷ []) = csv_cell v
csv_row (v ∷ w ∷ ws) = csv_cell v ++ comma ∷ csv_row (w ∷ ws)

-- `lines.map(…).join('\r\n')`
unfoldable pub csv_lines : List (List Text) → Text
csv_lines [] = []
csv_lines (row ∷ []) = csv_row row
csv_lines (row ∷ next ∷ rows) = csv_row row ++ cr ∷ lf ∷ csv_lines (next ∷ rows)

-- The mark that lets Excel read UTF-8.
abbrev pub bom : ℕ
bom = 65_279

abbrev pub header : List Text
header =
    codes "Date"
    ∷ codes "Start"
    ∷ codes "End"
    ∷ codes "Courts"
    ∷ codes "Type"
    ∷ codes "Status"
    ∷ codes "Customer"
    ∷ codes "Price"
    ∷ codes "Currency"
    ∷ codes "Payment"
    ∷ codes "PaymentStatus"
    ∷ codes "Source"
    ∷ []

-- A number in decimal; its fuel is more than the number of its digits.
unfoldable pub decimal : ℕ → ℕ → Text
decimal zero n = []
decimal (suc fuel) n =
    let rest = decimal fuel (n / 10) in
    if ltb n 10 then (b'0' + n) ∷ [] else rest ++ (b'0' + n % 10) ∷ []

abbrev two_digits : ℕ → Text
two_digits n = (b'0' + n / 10) ∷ (b'0' + n % 10) ∷ []

abbrev euros : ℕ → Text
euros cents = decimal (suc cents) (cents / 100) ++ b'.' ∷ two_digits (cents % 100)

-- `(r.priceCents / 100).toFixed(2)`
unfoldable pub to_fixed : ℤ → Text
unfolding decimal
to_fixed (pos cents) = euros cents
to_fixed (negsuc n) = b'-' ∷ euros (suc n)

abbrev local_time : Zone → Instant → Text
local_time zone t = two_digits (zone.format_hour t) ++ b':' ∷ two_digits (zone.format_minute t)

abbrev type_text : ReservationType → Text
type_text ReservationType.court = codes "COURT"
type_text ReservationType.lesson = codes "LESSON"
type_text ReservationType.event = codes "EVENT"
type_text ReservationType.tournament = codes "TOURNAMENT"
type_text ReservationType.block = codes "BLOCK"
type_text ReservationType.maintenance = codes "MAINTENANCE"

abbrev status_text : ReservationStatus → Text
status_text ReservationStatus.hold = codes "HOLD"
status_text ReservationStatus.pending_payment = codes "PENDING_PAYMENT"
status_text ReservationStatus.pending_approval = codes "PENDING_APPROVAL"
status_text ReservationStatus.confirmed = codes "CONFIRMED"
status_text ReservationStatus.completed = codes "COMPLETED"
status_text ReservationStatus.no_show = codes "NO_SHOW"
status_text ReservationStatus.cancelled = codes "CANCELLED"
status_text ReservationStatus.refunded = codes "REFUNDED"

abbrev payment_text : PaymentStatus → Text
payment_text PaymentStatus.pending = codes "PENDING"
payment_text PaymentStatus.authorized = codes "AUTHORIZED"
payment_text PaymentStatus.captured = codes "CAPTURED"
payment_text PaymentStatus.failed = codes "FAILED"
payment_text PaymentStatus.refunded = codes "REFUNDED"
payment_text PaymentStatus.partially_refunded = codes "PARTIALLY_REFUNDED"

abbrev source_text : ReservationSource → Text
source_text ReservationSource.web = codes "WEB"
source_text ReservationSource.club_staff = codes "CLUB_STAFF"
source_text ReservationSource.coach = codes "COACH"
source_text ReservationSource.platform_admin = codes "PLATFORM_ADMIN"
source_text ReservationSource.api = codes "API"

-- `join(' + ')`
abbrev joined : List Text → Text
joined [] = []
joined (t ∷ []) = t
joined (t ∷ u ∷ ts) = t ++ (codes " + " ++ joined (u ∷ ts))

-- The names of the reservation's resources.
unfoldable pub resource_names : ℕ → Store → List ResourceRow → List Text
resource_names id s [] = []
resource_names id s (row ∷ rows) =
    let rest = resource_names id s rows in
    if row.reservation_id == id
    then elim (find (λ (r : Resource). r.id == row.resource_id) s.resources) [
      | none ↦ rest
      | some r ↦ codes r.name ∷ rest
    ]
    else rest

-- `r.user?.name ?? participantName ?? ''`
abbrev name_text : Option User → Option String → Text
name_text (some u) p = codes u.name
name_text none (some p) = codes p
name_text none none = []

abbrev customer_text : Store → Reservation → Text
customer_text s r = elim r.type [
  | ReservationType.block ↦ []
  | _ ↦ name_text (find_user r.user_id s.users) r.participant_name
]

abbrev payment_status_text : ℕ → Store → Text
payment_status_text id s = elim (find (λ (p : Payment). p.reservation_id == id) s.payments) [
  | none ↦ []
  | some p ↦ payment_text p.status
]

unfoldable pub csv_line : Zone → Store → Reservation → List Text
csv_line zone s r =
    zone.format_date r.starts_at
    ∷ local_time zone r.starts_at
    ∷ local_time zone r.ends_at
    ∷ joined (resource_names r.id s s.rows)
    ∷ type_text r.type
    ∷ status_text r.status
    ∷ customer_text s r
    ∷ to_fixed r.price_cents
    ∷ codes r.currency
    ∷ codes r.payment_method
    ∷ payment_status_text r.id s
    ∷ source_text r.source
    ∷ []

abbrev in_range : ℕ → Instant → Instant → Reservation → Bool
in_range club_id start end r = r.club_id == club_id && (ltb r.starts_at end && ltb start r.ends_at)

unfoldable pub csv_table : Zone → ℕ → Instant → Instant → Store → List (List Text)
csv_table zone club_id start end s =
    header
    ∷ map (csv_line zone s) (
        sort (λ (a b : Reservation). sub_ℕ a.starts_at b.starts_at)
          (filter (in_range club_id start end) s.reservations))

pub record CsvFile : Type 0 where
  pub filename : Text
  pub csv : Text

abbrev pub file_name : Text → IsoDate → IsoDate → Text
file_name slug from to = slug ++ b'_' ∷ (from ++ b'_' ∷ (to ++ codes ".csv"))

unfoldable pub export_csv : ℕ → IsoDate → IsoDate → Action CsvFile
export_csv club_id from to = do
  throw_if (not (is_iso_date from) || not (is_iso_date to)) (app_exception validation_failed "from")
  club ←
      or_throw (← gets (λ s. find (λ (c : Club). c.id == club_id) s.clubs))
        (app_exception not_found "")
  start ← lift (instant_from_day_minutes club.zone from 0)
  end ← lift (instant_from_day_minutes club.zone to (24 * 60))
  throw_if (leb end start) (app_exception validation_failed "to")
  lines ← gets (csv_table club.zone club_id start end)
  pure (record { filename = file_name club.slug from to; csv = bom ∷ csv_lines lines })
