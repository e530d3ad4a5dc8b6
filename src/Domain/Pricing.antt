-- ===== src/Domain/Pricing.antt =====
-- packages/domain/src/pricing.ts: which price rule wins for a slot, and what it charges.
-- Ids, minutes and weekdays are natural numbers, prices and priorities integers; `null` and
-- `undefined` are `none`. Reading the local month and day of an instant (date-fns-tz, the format
-- "MMdd" as a number) is the parameter `month_day`.
pub mod Courts
pub mod Order
pub mod Winner
use playslot.Prelude.{
  ℕ, ◌/◌, ◌%◌, ◌^◌, ◌*◌, Bool, true, false, not, ◌&&◌, ◌||◌, Option, none, some, List, [], ◌∷◌,
  ◌++◌, String, any, filter, find, contains, leb, ltb, ◌==◌, if◌then◌else◌,
}
use playslot.Prelude.Int.{ℤ, pos, ◌-ℤ◌, ◌*ℤ◌, eq_ℤ, round_div, sub_ℕ}
use playslot.Prelude.Result.{Result, ok, err}
use playslot.Prelude.Sort.{sort}
use playslot.Domain.Time.{Instant}

pub record PriceRuleLike : Type 0 where
  pub id : ℕ
  pub resource_id : Option ℕ
  pub resource_ids : Option (List ℕ)
  pub service_id : Option ℕ
  pub weekday_mask : Option ℕ
  pub start_min : Option ℕ
  pub end_min : Option ℕ
  pub valid_from : Option Instant
  pub valid_until : Option Instant
  pub season_start : Option ℕ
  pub season_end : Option ℕ
  pub duration_min : Option ℕ
  pub price_cents : ℤ
  pub currency : String
  pub priority : ℤ
  pub active : Bool

pub record PriceContext : Type 0 where
  pub weekday : ℕ
  pub slot_start_min : ℕ
  pub slot_end_min : ℕ
  pub duration_min : ℕ
  pub date : Instant
  pub resource_id : Option ℕ
  pub service_id : Option ℕ
  pub time_zone : Option String

pub record ResolvedPrice : Type 0 where
  pub price_cents : ℤ
  pub currency : String
  pub rule_id : ℕ

pub data PricingError : Type 0 where
  no_rule_matched : Option ℕ → Option ℕ → PricingError
  invalid_rule_duration : ℕ → PricingError

-- `x ?? d`
abbrev pub or_else {ℓ} : {A : Type ℓ} → Option A → A → A
or_else none d = d
or_else (some a) d = a

-- `set.add(x)`: a set lists its entries in the order in which they were added.
abbrev pub add_to_set : List ℕ → ℕ → List ℕ
add_to_set s x = if contains s x then s else s ++ x ∷ []

-- `new Set(xs)`, added to what is there.
abbrev pub add_all : List ℕ → List ℕ → List ℕ
add_all s [] = s
add_all s (x ∷ xs) = add_all (add_to_set s x) xs

unfoldable pub rule_courts : PriceRuleLike → List ℕ
rule_courts rule =
    let ids = add_all [] (or_else rule.resource_ids []) in
    elim rule.resource_id [ none ↦ ids | some r ↦ add_to_set ids r ]

abbrev is_empty : List ℕ → Bool
is_empty [] = true
is_empty (x ∷ xs) = false

abbrev is_some : Option ℕ → Bool
is_some none = false
is_some (some x) = true

unfoldable pub specificity : PriceRuleLike → ℕ
unfolding rule_courts
specificity rule =
    let has_resource = not (is_empty (rule_courts rule)) in
    let has_service = is_some rule.service_id in
    if has_resource && has_service
    then 3
    else if has_resource
    then 2
    else if has_service
    then 1
    else 0

unfoldable pub in_season : ℕ → ℕ → ℕ → Bool
in_season month_day start end =
    if leb start end
    then leb start month_day && leb month_day end
    else leb start month_day || leb month_day end

-- The guards of `matches`, each true where the code goes on.
abbrev pub court_ok : List ℕ → Option ℕ → Bool
court_ok [] r = true
court_ok (c ∷ cs) none = false
court_ok (c ∷ cs) (some r) = contains (c ∷ cs) r

abbrev pub service_ok : Option ℕ → Option ℕ → Bool
service_ok none s = true
service_ok (some a) none = false
service_ok (some a) (some b) = a == b

abbrev pub from_ok : Option Instant → Instant → Bool
from_ok none d = true
from_ok (some f) d = not (ltb d f)

abbrev pub until_ok : Option Instant → Instant → Bool
until_ok none d = true
until_ok (some u) d = not (leb u d)

abbrev pub season_ok : Option ℕ → Option ℕ → ℕ → Bool
season_ok (some s) (some e) month_day = in_season month_day s e
season_ok none e month_day = true
season_ok (some s) none month_day = true

-- `(mask & (1 << weekday)) !== 0`
abbrev pub weekday_ok : Option ℕ → ℕ → Bool
weekday_ok none weekday = true
weekday_ok (some mask) weekday = not ((mask / 2 ^ weekday) % 2 == 0)

abbrev pub window_ok : Option ℕ → Option ℕ → ℕ → ℕ → Bool
window_ok (some s) (some e) slot_start slot_end = ltb s slot_end && ltb slot_start e
window_ok none e slot_start slot_end = true
window_ok (some s) none slot_start slot_end = true

module _ (month_day : String → Instant → ℕ) where
  unfoldable pub month_day_in_zone : Instant → Option String → ℕ
  month_day_in_zone instant time_zone = month_day (or_else time_zone "Europe/Sofia") instant

  unfoldable pub matches : PriceRuleLike → PriceContext → Bool
  matches rule ctx =
      if not rule.active
      then false
      else if not (court_ok (rule_courts rule) ctx.resource_id)
      then false
      else if not (service_ok rule.service_id ctx.service_id)
      then false
      else if not (from_ok rule.valid_from ctx.date)
      then false
      else if not (until_ok rule.valid_until ctx.date)
      then false
      else if not
          (season_ok rule.season_start rule.season_end (month_day_in_zone ctx.date ctx.time_zone))
      then false
      else if not (weekday_ok rule.weekday_mask ctx.weekday)
      then false
      else window_ok rule.start_min rule.end_min ctx.slot_start_min ctx.slot_end_min

-- The comparator of `resolvePrice`: priority, then specificity, then the higher id first.
unfoldable pub precedence : PriceRuleLike → PriceRuleLike → ℤ
precedence a b =
    if not (eq_ℤ b.priority a.priority)
    then b.priority -ℤ a.priority
    else if not (specificity b == specificity a)
    then sub_ℕ (specificity b) (specificity a)
    else sub_ℕ b.id a.id

-- What the winner charges for the requested duration.
unfoldable pub charge : PriceRuleLike → PriceContext → Result PricingError ResolvedPrice
charge winner ctx =
    let unit = or_else winner.duration_min 60 in
    if leb unit 0
    then err (invalid_rule_duration winner.id)
    else ok (record {
      price_cents = round_div (winner.price_cents *ℤ pos ctx.duration_min) unit;
      currency = winner.currency;
      rule_id = winner.id;
    })

-- The first entry decides; with none left the resolution fails.
abbrev pub charge_first : List PriceRuleLike → PriceContext → Result PricingError ResolvedPrice
charge_first [] ctx = err (no_rule_matched ctx.resource_id ctx.service_id)
charge_first (winner ∷ rest) ctx = charge winner ctx

module _ (month_day : String → Instant → ℕ) where
  unfoldable pub resolve_price :
      List PriceRuleLike → PriceContext → Result PricingError ResolvedPrice
  resolve_price rules ctx =
      let candidates = filter (λ r. matches month_day r ctx) rules in
      charge_first (sort precedence candidates) ctx
