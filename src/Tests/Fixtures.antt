-- ===== src/Tests/Fixtures.antt =====
-- A club with one court, open all day, in a zone that is UTC on the first days of 1970.
use playslot.Prelude.{ℕ, ◌+◌, ◌*◌, ◌/◌, ◌%◌, true, false, none, some, [], ◌∷◌, if◌then◌else◌}
use playslot.Prelude.Int.{ℤ, pos}
use playslot.Prelude.Text.{codes, codes_eq}
use playslot.Domain.Time.{Instant, Zone, IsoDate}
use playslot.Domain.Status.{ReservationStatus}
use playslot.Domain.Slots.{AvailabilityRuleLike}
use playslot.Domain.Pricing.{PriceRuleLike, PriceContext}
use playslot.Store.Tables.{
  Store, Club, Resource, ResourceType, Reservation, ReservationType, ReservationSource, ResourceRow,
}
use playslot.Payments.{Provider}
use playslot.Booking.Slot.{Env, ResolvedSlot}
use playslot.Booking.Transaction.{BookingArgs, FinalStatus}

abbrev pub first_day : IsoDate
first_day = codes "1970-01-01"

abbrev pub utc : Zone
utc = record {
  from_zoned_time =
      λ d h m. (if codes_eq d first_day then 0 else 86_400_000) + h * 3_600_000 + m * 60_000;
  get_timezone_offset = λ t. pos 0;
  format_date = λ t. first_day;
  format_hour = λ t. (t / 3_600_000) % 24;
  format_minute = λ t. (t / 60_000) % 60;
}

abbrev pub at : ℕ → Instant
at h = h * 3_600_000

abbrev pub club : Club
club = record {
  id = 1;
  name = "Club";
  slug = codes "club";
  active = true;
  zone = utc;
  slot_interval_min = 30;
  currency = "EUR";
  requires_booking_approval = false;
  booking_durations_min = [];
}

abbrev pub all_day : AvailabilityRuleLike
all_day = record { weekday = 4; start_min = 0; end_min = 1440 }

abbrev pub court : Resource
court = record {
  id = 2;
  club_id = some 1;
  type = ResourceType.court;
  name = "Court";
  active = true;
  coach_profile_id = none;
  min_reservation_min = 60;
  sport = none;
  surface = none;
  is_indoor = none;
  has_lighting = none;
  availability_rules = all_day ∷ [];
  exceptions = [];
}

abbrev pub env : Env
env = record {
  hold_ttl_min = 15;
  max_advance_days = 30;
  platform_notify_email = none;
  month_day = λ z t. 101;
  name_order = λ a b. pos 0;
}

abbrev pub provider : Provider
provider = record { name = "test"; create_checkout = λ id cents. some ("ref", "url") }

abbrev pub empty_store : Store
empty_store = record {
  users = [];
  clubs = club ∷ [];
  members = [];
  resources = court ∷ [];
  coach_profiles = [];
  coach_clubs = [];
  coach_services = [];
  price_rules = [];
  plans = [];
  memberships = [];
  policies = [];
  reservations = [];
  rows = [];
  payments = [];
  group_sessions = [];
  registrations = [];
  feedback = [];
  audit_log = [];
  effects = [];
  next_id = 10;
}

abbrev pub row : ResourceRow
row = record {
  reservation_id = 5;
  resource_id = 2;
  period = record { start = at 9; end = at 10 };
  is_active = true;
}

abbrev pub reservation : ReservationStatus → Reservation
reservation status = record {
  id = 5;
  club_id = 1;
  user_id = 3;
  type = ReservationType.court;
  status = status;
  source = ReservationSource.web;
  starts_at = at 9;
  ends_at = at 10;
  price_cents = pos 2_000;
  currency = "EUR";
  payment_method = "ONLINE";
  hold_expires_at = some (at 8);
  cancellation_reason = none;
  participant_name = none;
}

-- One reservation with its row.
abbrev pub with_status : ReservationStatus → Store
with_status status = record empty_store { reservations = reservation status ∷ []; rows = row ∷ [] }

abbrev pub slot : ResolvedSlot
slot = record {
  club_id = 1;
  requires_booking_approval = false;
  currency = "EUR";
  slot_interval_min = 30;
  start = at 10;
  end = at 11;
  weekday = 4;
  start_min = 600;
  end_min = 660;
  resource_ids = 2 ∷ [];
}

abbrev pub args : BookingArgs
args = record {
  slot = slot;
  user_id = 3;
  actor_user_id = 3;
  type = ReservationType.court;
  source = ReservationSource.web;
  price_cents = pos 2_000;
  payment_method = "CASH";
  participant_name = none;
  hold_expires_at = none;
  final_status = FinalStatus.confirmed;
}

abbrev pub rule : ℕ → ℤ → PriceRuleLike
rule id price_cents = record {
  id = id;
  resource_id = some 2;
  resource_ids = none;
  service_id = none;
  weekday_mask = none;
  start_min = none;
  end_min = none;
  valid_from = none;
  valid_until = none;
  season_start = none;
  season_end = none;
  duration_min = none;
  price_cents = price_cents;
  currency = "EUR";
  priority = pos 0;
  active = true;
}

abbrev pub context : PriceContext
context = record {
  weekday = 4;
  slot_start_min = 600;
  slot_end_min = 690;
  duration_min = 90;
  date = at 10;
  resource_id = some 2;
  service_id = none;
  time_zone = none;
}
