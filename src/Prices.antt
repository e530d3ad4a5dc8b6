-- ===== src/Prices.antt =====
-- apps/api/src/pricing/pricing.service.ts: the price rules of a club, as its admin edits them; Preview
-- has the preview of a price. What it uses of JavaScript's dates is the parameter `Dates`.
pub mod Owned
pub mod Preview
pub mod Previewed
use playslot.Prelude.{
  ℕ, ◌+◌, ◌/◌, ◌%◌, ◌≡◌, Bool, true, false, not, ◌&&◌, String, Option, none, some, List, [], ◌∷◌,
  map, any, filter, find, ltb, ◌==◌, if◌then◌else◌,
}
use playslot.Prelude.Int.{ℤ, eq_ℤ, ◌-ℤ◌, sub_ℕ}
use playslot.Prelude.Result.{Result, ok, err}
use playslot.Prelude.Sort.{sort}
use playslot.Domain.Time.{Instant, IsoDate}
use playslot.Domain.Pricing.{PriceRuleLike, ResolvedPrice, PricingError, resolve_price}
use playslot.Store.Tables.{Store, Club, Resource, PriceRule, CoachService}
use playslot.Store.Action.{
  Action, app_exception, foreign_key_violation, type_error, not_found, ◌>>=◌, ◌>>◌, pure, gets,
  or_throw, throw_if, modify,
}
use playslot.Booking.Slot.{Env, in_club, load_price_rules}

-- `new Date(`${iso}T00:00:00Z`)`, and `toISOString().slice(0, 10)`.
pub record Dates : Type 0 where
  pub midnight : IsoDate → Instant
  pub iso_date : Instant → IsoDate

pub record UpsertPriceRuleInput : Type 0 where
  pub resource_id : Option ℕ
  pub service_id : Option ℕ
  pub weekday_mask : Option ℕ
  pub start_min : Option ℕ
  pub end_min : Option ℕ
  pub valid_from : Option IsoDate
  pub valid_until : Option IsoDate
  pub duration_min : ℕ
  pub price_cents : ℤ
  pub priority : ℤ
  pub active : Bool

pub record PriceRuleDto : Type 0 where
  pub id : ℕ
  pub resource_id : Option ℕ
  pub resource_name : Option String
  pub service_id : Option ℕ
  pub weekday_mask : Option ℕ
  pub start_min : Option ℕ
  pub end_min : Option ℕ
  pub valid_from : Option IsoDate
  pub valid_until : Option IsoDate
  pub duration_min : Option ℕ
  pub price_cents : ℤ
  pub currency : String
  pub priority : ℤ
  pub active : Bool

-- Priority, then id, the greatest first.
unfoldable pub listed_before : PriceRule → PriceRule → ℤ
listed_before a b =
    if not (eq_ℤ b.rule.priority a.rule.priority)
    then b.rule.priority -ℤ a.rule.priority
    else sub_ℕ b.rule.id a.rule.id

abbrev resource_name : Store → Option ℕ → Option String
resource_name s none = none
resource_name s (some id) = elim (find (λ (r : Resource). r.id == id) s.resources) [
  | none ↦ none
  | some r ↦ some r.name
]

abbrev is_rule : ℕ → ℕ → PriceRule → Bool
is_rule club_id id p = p.rule.id == id && p.club_id == club_id

abbrev is_of_club : ℕ → PriceRule → Bool
is_of_club club_id p = p.club_id == club_id

-- `assertOwned`
unfoldable pub assert_owned : ℕ → ℕ → Action (Unit {0})
assert_owned club_id rule_id = do
  or_throw (← gets (λ s. find (is_rule club_id rule_id) s.price_rules)) (app_exception not_found "")
  pure tt

-- `assertResourceBelongs`
unfoldable pub assert_resource_belongs : ℕ → Option ℕ → Action (Unit {0})
assert_resource_belongs club_id none = pure tt
assert_resource_belongs club_id (some id) = do
  or_throw
      (← gets (λ s. find (λ (r : Resource). r.id == id && in_club club_id r.club_id) s.resources))
      (app_exception not_found "")
  pure tt

-- `serviceId` refers to a coach's service.
abbrev pub is_service : Option ℕ → Store → Bool
is_service none s = true
is_service (some id) s = any (λ (c : CoachService). c.id == id) s.coach_services

unfoldable pub remove : ℕ → ℕ → Action (Unit {0})
remove club_id rule_id = do
  assert_owned club_id rule_id
  modify λ s. record s {
    price_rules = filter (λ (p : PriceRule). not (p.rule.id == rule_id)) s.price_rules;
  }

module _ (dates : Dates) where
  -- An empty text is no date.
  abbrev to_date : Option IsoDate → Option Instant
  to_date none = none
  to_date (some []) = none
  to_date (some (c ∷ cs)) = some (dates.midnight (c ∷ cs))

  abbrev to_iso : Option Instant → Option IsoDate
  to_iso none = none
  to_iso (some t) = some (dates.iso_date t)

  unfoldable pub to_dto : Store → PriceRule → PriceRuleDto
  to_dto s p = record {
    id = p.rule.id;
    resource_id = p.rule.resource_id;
    resource_name = resource_name s p.rule.resource_id;
    service_id = p.rule.service_id;
    weekday_mask = p.rule.weekday_mask;
    start_min = p.rule.start_min;
    end_min = p.rule.end_min;
    valid_from = to_iso p.rule.valid_from;
    valid_until = to_iso p.rule.valid_until;
    duration_min = p.rule.duration_min;
    price_cents = p.rule.price_cents;
    currency = p.rule.currency;
    priority = p.rule.priority;
    active = p.rule.active;
  }

  unfoldable pub list : ℕ → Store → List PriceRuleDto
  list club_id s = map (to_dto s) (sort listed_before (filter (is_of_club club_id) s.price_rules))

  -- The columns that `toData` sets.
  unfoldable pub to_data : UpsertPriceRuleInput → PriceRuleLike → PriceRuleLike
  to_data input rule = record rule {
    resource_id = input.resource_id;
    service_id = input.service_id;
    weekday_mask = input.weekday_mask;
    start_min = input.start_min;
    end_min = input.end_min;
    valid_from = to_date input.valid_from;
    valid_until = to_date input.valid_until;
    duration_min = some input.duration_min;
    price_cents = input.price_cents;
    priority = input.priority;
    active = input.active;
  }

  -- The columns of a new row before that.
  abbrev blank : ℕ → String → UpsertPriceRuleInput → PriceRuleLike
  blank id currency input = record {
    id = id;
    resource_id = none;
    resource_ids = none;
    service_id = none;
    weekday_mask = none;
    start_min = none;
    end_min = none;
    valid_from = none;
    valid_until = none;
    season_start = none;
    season_end = none;
    duration_min = none;
    price_cents = input.price_cents;
    currency = currency;
    priority = input.priority;
    active = true;
  }

  -- `priceRule.create`
  unfoldable pub insert_rule : ℕ → String → UpsertPriceRuleInput → Action ℕ
  insert_rule club_id currency input s =
      if not (is_service input.service_id s) then (err foreign_key_violation, s) else (
        ok s.next_id,
        record s {
          price_rules =
              record { club_id = club_id; rule = to_data input (blank s.next_id currency input) }
              ∷ s.price_rules;
          next_id = s.next_id + 1;
        },
      )

  -- `(await this.list(clubId)).find((r) => r.id === id)`
  abbrev pub listed : ℕ → ℕ → Store → Option PriceRuleDto
  listed club_id id s = find (λ (d : PriceRuleDto). d.id == id) (list club_id s)

  unfoldable pub create : ℕ → UpsertPriceRuleInput → Action (Option PriceRuleDto)
  create club_id input = do
    assert_resource_belongs club_id input.resource_id
    club ←
        or_throw (← gets (λ s. find (λ (c : Club). c.id == club_id) s.clubs))
          (app_exception not_found "")
    id ← insert_rule club_id club.currency input
    gets (listed club_id id)

  -- `priceRule.update`
  unfoldable pub update_rule : ℕ → UpsertPriceRuleInput → Action (Unit {0})
  update_rule id input s =
      if not (is_service input.service_id s) then (err foreign_key_violation, s) else (
        ok tt,
        record s {
          price_rules =
              map
                (λ (p : PriceRule).
                  if p.rule.id == id then record p { rule = to_data input p.rule } else p)
                s.price_rules;
        },
      )

  unfoldable pub update : ℕ → ℕ → UpsertPriceRuleInput → Action (Option PriceRuleDto)
  update club_id rule_id input = do
    assert_owned club_id rule_id
    assert_resource_belongs club_id input.resource_id
    update_rule rule_id input
    gets (listed club_id rule_id)
