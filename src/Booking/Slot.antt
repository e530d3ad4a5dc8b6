-- ===== src/Booking/Slot.antt =====
-- reservations.service.ts, the shared internals: which slot a request means, and what it costs.
use playslot.Prelude.{
  ℕ, ◌+◌, ◌-◌, ◌*◌, ◌%◌, Bool, true, false, not, ◌&&◌, ◌||◌, String, Option, none, some, List, [],
  ◌∷◌, map, any, filter, find, contains, length, leb, ltb, ◌==◌, if◌then◌else◌,
}
use playslot.Prelude.Int.{ℤ}
use playslot.Prelude.Result.{Result, ok, err}
use playslot.Domain.Time.{
  Instant, Interval, instant_from_day_minutes, weekday_in_zone, intervals_overlap,
}
use playslot.Domain.Slots.{AvailabilityRuleLike}
use playslot.Domain.Pricing.{PriceRuleLike, ResolvedPrice, PricingError, resolve_price}
use playslot.Store.Tables.{Store, Email, Club, Resource, ResourceType, CoachClub, CoachService}
use playslot.Store.Action.{
  Action, app_exception, validation_failed, not_found, policy_violation, availability_changed,
  ◌>>=◌, ◌>>◌, pure, gets, throw_if, or_throw, lift,
}

-- What the service takes from its environment: HOLD_TTL_MIN, MAX_ADVANCE_DAYS,
-- PLATFORM_NOTIFY_EMAIL, the reading of the local month and day (date-fns-tz) that pricing.ts uses,
-- and the order of the database in which names are sorted.
pub record Env : Type 0 where
  pub hold_ttl_min : ℕ
  pub max_advance_days : ℕ
  pub platform_notify_email : Option Email
  pub month_day : String → Instant → ℕ
  pub name_order : String → String → ℤ

pub record SlotRequest : Type 0 where
  pub club_id : ℕ
  -- none where the text is no date
  pub starts_at : Option Instant
  pub duration_min : ℕ
  pub resource_ids : List ℕ
  pub enforce_hours : Bool
  pub allow_midnight_cross : Bool

pub record ResolvedSlot : Type 0 where
  pub club_id : ℕ
  pub requires_booking_approval : Bool
  pub currency : String
  pub slot_interval_min : ℕ
  pub start : Instant
  pub end : Instant
  pub weekday : ℕ
  pub start_min : ℕ
  pub end_min : ℕ
  pub resource_ids : List ℕ

abbrev pub is_active_club : ℕ → Club → Bool
is_active_club id c = c.id == id && c.active

abbrev pub in_club : ℕ → Option ℕ → Bool
in_club club_id none = false
in_club club_id (some c) = c == club_id

-- `{ id: { in: ids }, clubId, status: 'ACTIVE' }`
abbrev pub is_bookable : ℕ → List ℕ → Resource → Bool
is_bookable club_id ids r = contains ids r.id && (in_club club_id r.club_id && r.active)

-- `n % d !== 0`, where a remainder by 0 is NaN.
abbrev misaligned : ℕ → ℕ → Bool
misaligned n d = if d == 0 then true else not (n % d == 0)

abbrev pub open_at : ℕ → ℕ → ℕ → AvailabilityRuleLike → Bool
open_at weekday start_min end_min rule =
    rule.weekday == weekday && (leb rule.start_min start_min && leb end_min rule.end_min)

-- The checks of one resource.
unfoldable pub check_resource : Bool → ℕ → ℕ → ℕ → ℕ → Interval → Resource → Action (Unit {0})
check_resource enforce weekday start_min end_min duration period r = do
  throw_if (enforce && not (any (open_at weekday start_min end_min) r.availability_rules))
      (app_exception availability_changed "closed")
  throw_if (enforce && ltb duration r.min_reservation_min)
      (app_exception policy_violation "below_min_duration")
  throw_if (any (λ e. intervals_overlap e period) r.exceptions)
      (app_exception availability_changed "club_closed")

-- The loop over the resources.
unfoldable pub check_resources : Bool → ℕ → ℕ → ℕ → ℕ → Interval → List Resource → Action (Unit {0})
check_resources enforce weekday start_min end_min duration period [] = pure tt
check_resources enforce weekday start_min end_min duration period (r ∷ rs) = do
  check_resource enforce weekday start_min end_min duration period r
  check_resources enforce weekday start_min end_min duration period rs

unfoldable pub resolve_slot : Env → Instant → SlotRequest → Action ResolvedSlot
resolve_slot env now opts = do
  start ← or_throw opts.starts_at (app_exception validation_failed "startsAt")
  let end = start + opts.duration_min * 60_000
  club ←
      or_throw (← gets (λ s. find (is_active_club opts.club_id) s.clubs))
        (app_exception not_found "")
  throw_if (leb start now) (app_exception policy_violation "in_past")
  throw_if (ltb (env.max_advance_days * 86_400_000) (start - now))
      (app_exception policy_violation "beyond_max_advance")
  let iso_date = club.zone.format_date start
  let start_min = club.zone.format_hour start * 60 + club.zone.format_minute start
  let end_min = start_min + opts.duration_min
  resolved ← lift (instant_from_day_minutes club.zone iso_date start_min)
  throw_if (not (resolved == start)) (app_exception policy_violation "invalid_start")
  throw_if
      (misaligned start_min club.slot_interval_min
        || misaligned opts.duration_min club.slot_interval_min)
      (app_exception policy_violation "misaligned_slot")
  throw_if (not opts.allow_midnight_cross && ltb (24 * 60) end_min)
      (app_exception policy_violation "crosses_midnight")
  weekday ← lift (weekday_in_zone club.zone iso_date)
  resources ← gets (λ s. filter (is_bookable club.id opts.resource_ids) s.resources)
  throw_if (not (length resources == length opts.resource_ids)) (app_exception not_found "resource")
  check_resources opts.enforce_hours weekday start_min end_min opts.duration_min
      (record { start = start; end = end }) resources
  pure (record {
    club_id = club.id;
    requires_booking_approval = club.requires_booking_approval;
    currency = club.currency;
    slot_interval_min = club.slot_interval_min;
    start = start;
    end = end;
    weekday = weekday;
    start_min = start_min;
    end_min = end_min;
    resource_ids = opts.resource_ids;
  })

-- `slot.resourceIds.length === 1 ? slot.resourceIds[0] : undefined`
abbrev pub only_resource : List ℕ → Option ℕ
only_resource [] = none
only_resource (r ∷ []) = some r
only_resource (r ∷ q ∷ rs) = none

abbrev pub priced : Result PricingError ResolvedPrice → Action ℤ
priced (ok p) s = (ok p.price_cents, s)
priced (err e) s = (err (app_exception policy_violation "no_price"), s)

unfoldable pub price_for : Env → List PriceRuleLike → ResolvedSlot → Action ℤ
price_for env rules slot = priced (
    resolve_price env.month_day rules (record {
      weekday = slot.weekday;
      slot_start_min = slot.start_min;
      slot_end_min = slot.end_min;
      duration_min = slot.end_min - slot.start_min;
      date = slot.start;
      resource_id = only_resource slot.resource_ids;
      service_id = none;
      time_zone = none;
    }))

-- The columns that are read: no court group and no season.
abbrev row_of : PriceRuleLike → PriceRuleLike
row_of r = record r { resource_ids = none; season_start = none; season_end = none }

unfoldable pub load_price_rules : ℕ → Store → List PriceRuleLike
load_price_rules club_id s =
    map (λ p. row_of p.rule) (filter (λ p. p.club_id == club_id && p.rule.active) s.price_rules)

abbrev is_coach_of : ℕ → Resource → Bool
is_coach_of profile_id r =
    in_club profile_id r.coach_profile_id
    && (elim r.type [ ResourceType.coach ↦ true | _ ↦ false ] && r.active)

unfoldable pub resolve_coach_resource : ℕ → ResolvedSlot → Action ℕ
resolve_coach_resource coach_profile_id slot = do
  or_throw
      (← gets (λ s.
        find
          (λ (l : CoachClub). l.coach_profile_id == coach_profile_id && l.club_id == slot.club_id)
          s.coach_clubs))
      (app_exception not_found "coach_not_at_club")
  coach ←
      or_throw (← gets (λ s. find (is_coach_of coach_profile_id) s.resources))
        (app_exception not_found "coach_resource")
  throw_if (not (any (open_at slot.weekday slot.start_min slot.end_min) coach.availability_rules))
      (app_exception availability_changed "coach_closed")
  pure coach.id

unfoldable pub lesson_price : Env → ℕ → Option ℕ → ResolvedSlot → Action ℤ
lesson_price env coach_profile_id none slot = do
  rules ← gets (load_price_rules slot.club_id)
  price_for env rules slot
lesson_price env coach_profile_id (some service_id) slot = do
  service ←
      or_throw
        (← gets (λ s.
          find (λ (c : CoachService). c.id == service_id && c.coach_profile_id == coach_profile_id)
            s.coach_services))
        (app_exception not_found "service")
  pure service.price_cents
