-- ===== src/Tests/Rules.antt =====
-- The theorems on prices, refunds, discounts, statuses and intervals at concrete inputs.
use mathlib.Core.List.{mem-cons, not-mem-nil}
use mathlib.Core.List.Perm
use text.Mathlib.TextEquality.{IsScalar-prop}
use Prim.Native.Char.{IsScalar}
use mathlib.Core.Logic.Or
use playslot.Prelude.{
  ℕ, String, ◌+◌, ◌-◌, ◌*◌, ◌≤◌, ◌<◌, ◌≡◌, ◌≢◌, ◌⊎◌, ◌↔◌, ◌||◌, refl, sym, ap, ◌∙◌, true, false,
  none, some, List, [], ◌∷◌, Mem, All, arith, filter, contains,
}
use playslot.Prelude.Int.{ℤ, pos, negsuc, ◌+ℤ◌, ◌≤ℤ◌, ◌*ℤ◌, IsRounded}
use playslot.Prelude.Text.{codes}
use playslot.Prelude.Result.{ok, err}
use playslot.Domain.Time.{Instant, Interval, intervals_overlap}
use playslot.Domain.Time.Overlap.{Within, intervals_overlap_iff}
use playslot.Domain.Status.{
  ReservationStatus, hold, confirmed, cancelled, refunded, pending_payment, no_show, can_transition,
  occupies_inventory, assert_transition, reservation_transition_error,
}
use playslot.Domain.Status.Graph.{Chain, here, next, Chain-bounded, Chain-released, final_iff}
use playslot.Domain.Money.{Money, percent_of, price_for_duration}
use playslot.Domain.Money.Rounding.{percent_of_parts, price_for_duration_bounds}
use playslot.Domain.Cancellation.{RefundTier, compute_refund, bad_price, winning_tier, at_least}
use playslot.Domain.Cancellation.Refund.{
  Applies, IsLongest, winning_tier-IsLongest, compute_refund_bounds,
}
use playslot.Domain.Pricing.{
  PriceRuleLike, rule_courts, matches, resolve_price, charge, no_rule_matched,
  invalid_rule_duration, or_else,
}
use playslot.Domain.Pricing.Winner.{
  DistinctIds, Wins, resolve_price_cases, resolve_price-perm, charge_nearest,
}
use playslot.Domain.Pricing.Courts.{matches-court, is_court}
use playslot.Store.Tables.{Store}
use playslot.Memberships.{discount_percent, apply_discount, plan_discount, is_current}
use playslot.Memberships.Discount.{discount_percent-bounds, apply_discount-bounds}
use playslot.Tests.Fixtures.{at, rule, context, empty_store}

abbrev month_day : String → Instant → ℕ
month_day z t = 101

abbrev early : Interval
early = record { start = at 9; end = at 11 }

abbrev late : Interval
late = record { start = at 10; end = at 12 }

intervals_overlap_iff_example :
    (intervals_overlap early late ≡ true) ↔ ((t : Instant) × (Within t early × Within t late))
intervals_overlap_iff_example = intervals_overlap_iff early late (omega arith) (omega arith)

abbrev two : ℕ
two = 2

paid-Chain : Chain hold two confirmed
unfolding can_transition
paid-Chain = next (next {t = hold} {u = pending_payment} here refl) refl

Chain-bounded_example : (two ≤ 5) × (hold ≡ confirmed → two ≡ 0)
Chain-bounded_example = Chain-bounded paid-Chain

refund-Chain : Chain cancelled 1 refunded
unfolding can_transition
refund-Chain = next here refl

cancelled_free : occupies_inventory cancelled ≡ false
unfolding occupies_inventory
cancelled_free = refl

Chain-released_example : occupies_inventory refunded ≡ false
Chain-released_example = Chain-released refund-Chain cancelled_free

final_iff_example :
    ((u : ReservationStatus) → assert_transition no_show u ≡ reservation_transition_error no_show u)
    ↔ ((no_show ≡ no_show) ⊎ (no_show ≡ refunded))
final_iff_example = final_iff no_show

abbrev fee : Money
fee = record { amount_cents = pos 1_005; currency = codes "EUR" }

percent_of_parts_example :
    (x y : Money) × (percent_of fee (pos 50) ≡ ok x)
    × (percent_of fee (pos (100 - 50)) ≡ ok y)
    × ((x.amount_cents +ℤ y.amount_cents ≡ pos 1_005)
        ⊎ (x.amount_cents +ℤ y.amount_cents ≡ pos (1_005 + 1)))
percent_of_parts_example = percent_of_parts fee 1_005 50 refl refl (omega arith)

abbrev minutes : ℕ
minutes = 90

price_for_duration_bounds_example :
    (r : ℕ) × (price_for_duration (pos 2_000) (pos 90) ≡ ok (pos r))
    × (120 * r ≤ 2 * (2_000 * 90) + 60)
    × (2 * (2_000 * 90) < 120 * r + 60)
    × (minutes ≡ 60 → r ≡ 2_000)
price_for_duration_bounds_example = price_for_duration_bounds 2_000 90 (omega arith)

abbrev tiers : List RefundTier
tiers =
    record { min_hours_before = pos 12; refund_percent = pos 50 }
    ∷ record { min_hours_before = pos 24; refund_percent = pos 100 }
    ∷ []

abbrev notice : ℤ
notice = pos (13 * 3_600_000)

winning_tier-IsLongest_example :
    ((t : RefundTier)
      → winning_tier tiers notice ≡ some t
      → Mem t tiers × Applies notice t × IsLongest notice tiers t)
    × (winning_tier tiers notice ≡ none
        → All (λ t. at_least notice t.min_hours_before ≡ false) tiers)
winning_tier-IsLongest_example = winning_tier-IsLongest tiers notice

compute_refund_bounds_example :
    ((p c : ℕ) × (compute_refund tiers notice (pos 2_001)
        ≡ ok (record { refund_cents = pos c; refund_percent = pos p }))
      × (p ≤ 100)
      × (c ≤ 2_001))
    × (compute_refund tiers notice (negsuc 2_001) ≡ err (bad_price (negsuc 2_001)))
compute_refund_bounds_example = compute_refund_bounds tiers notice 2_001

abbrev rules : List PriceRuleLike
rules = rule 1 (pos 2_000) ∷ rule 2 (pos 2_400) ∷ []

resolve_price_cases_example :
    (All (λ r. matches month_day r context ≡ false) rules
      × (resolve_price month_day rules context
          ≡ err (no_rule_matched context.resource_id context.service_id)))
    ⊎ ((w : PriceRuleLike) × Wins month_day context w rules
        × (resolve_price month_day rules context ≡ charge w context))
resolve_price_cases_example = resolve_price_cases month_day context rules

abbrev unit : ℕ
unit = 60

charge_nearest_example :
    (0 < unit
      → (r : ℤ) × (charge (rule 1 (pos 2_000)) context
          ≡ ok (record { price_cents = r; currency = "EUR"; rule_id = 1 }))
        × IsRounded (pos 2_000 *ℤ pos 90) unit r)
    × (unit ≡ 0 → charge (rule 1 (pos 2_000)) context ≡ err (invalid_rule_duration 1))
charge_nearest_example = charge_nearest (rule 1 (pos 2_000)) context

rule_matches : matches month_day (rule 1 (pos 2_000)) context ≡ true
unfolding matches rule_courts
rule_matches = refl

limited : rule_courts (rule 1 (pos 2_000)) ≢ []
unfolding rule_courts
limited e = cc

matches-court_example :
    (c : ℕ) × (some 2 ≡ some c) × ((contains (or_else none []) c || is_court (some 2) c) ≡ true)
matches-court_example = matches-court month_day (rule 1 (pos 2_000)) context limited rule_matches

abbrev members : Store
members = record empty_store {
  plans =
      record {
        id = 7;
        club_id = 1;
        name = "Gold";
        price_cents = pos 5_000;
        duration_days = 30;
        discount_percent = pos 20;
        active = true;
      }
      ∷ [];
  memberships = record { id = 8; club_id = 1; user_id = 3; plan_id = 7; valid_until = at 20 } ∷ [];
}

discount_percent-bounds_example :
    (pos 0 ≤ℤ discount_percent 1 (some (2 + 1)) (at 9) members)
    × All
        (λ m.
          plan_discount m.plan_id members.plans ≤ℤ discount_percent 1 (some (2 + 1)) (at 9) members)
        (filter (is_current 1 (2 + 1) (at 9)) members.memberships)
    × (discount_percent 1 (some 0) (at 9) members ≡ pos 0)
    × (discount_percent 1 none (at 9) members ≡ pos 0)
discount_percent-bounds_example = discount_percent-bounds 1 2 (at 9) members

abbrev twenty : ℕ
twenty = 20

apply_discount-bounds_example :
    (c : ℕ) × (apply_discount (pos 2_000) (pos 20) ≡ pos c)
    × (c ≤ 2_000)
    × (twenty ≡ 0 → c ≡ 2_000)
    × (twenty ≡ 100 → c ≡ 0)
apply_discount-bounds_example = apply_discount-bounds 2_000 20 (omega arith)

IsScalar-IsSet : (n : ℕ) → IsSet (IsScalar n)
IsScalar-IsSet n = hlevel (IsScalar-prop n)

price_rule_IsSet : IsSet PriceRuleLike
price_rule_IsSet = hlevel IsScalar-IsSet

rules-DistinctIds : DistinctIds month_day context rules
rules-DistinctIds a b ma mb e =
    Or.elim (price_rule_IsSet a b) (mem-cons.0 ma)
      (λ p.
        Or.elim (price_rule_IsSet a b) (mem-cons.0 mb) (λ q. p ∙ sym q)
          (λ m.
            Or.elim (price_rule_IsSet a b) (mem-cons.0 m)
              (λ q. absurd (
                ground (
                  arith,
                  e,
                  ap (λ (r : PriceRuleLike). r.id) p,
                  ap (λ (r : PriceRuleLike). r.id) q,
                )))
              (λ n. absurd (not-mem-nil n))))
      (λ k.
        Or.elim (price_rule_IsSet a b) (mem-cons.0 k)
          (λ p.
            Or.elim (price_rule_IsSet a b) (mem-cons.0 mb)
              (λ q. absurd (
                ground (
                  arith,
                  e,
                  ap (λ (r : PriceRuleLike). r.id) p,
                  ap (λ (r : PriceRuleLike). r.id) q,
                )))
              (λ m.
                Or.elim (price_rule_IsSet a b) (mem-cons.0 m) (λ q. p ∙ sym q)
                  (λ n. absurd (not-mem-nil n))))
          (λ n. absurd (not-mem-nil n)))

resolve_price-perm_example :
    resolve_price month_day rules context
    ≡ resolve_price month_day (rule 2 (pos 2_400) ∷ rule 1 (pos 2_000) ∷ []) context
resolve_price-perm_example =
    resolve_price-perm month_day context rules (rule 2 (pos 2_400) ∷ rule 1 (pos 2_000) ∷ [])
      rules-DistinctIds (Perm.swap _ _ [])
