-- ===== src/Tests/Offers.antt =====
-- The theorems on availability and price rules at concrete stores.

use playslot.Prelude.{ℕ, ◌+◌, ◌≡◌, refl, true, none, some, [], ◌∷◌, find, filter}
use playslot.Prelude.Int.{pos}
use playslot.Prelude.Result.{ok}
use playslot.Domain.Status.{ReservationStatus}
use playslot.Domain.Slots.{SlotState, Slot}
use playslot.Store.Tables.{Store}
use playslot.Memberships.{apply_discount}
use playslot.Booking.Slot.{price_for, load_price_rules}
use playslot.Availability.Day.{Day, slot_price}
use playslot.Prices.{Dates, UpsertPriceRuleInput, create, update, remove}
use playslot.Prices.Preview.{PreviewQuery, PricePreviewDto, preview}
use playslot.Prices.Owned.{Others, rules_elsewhere_kept}
use playslot.Prices.Previewed.{shown, quoted_charged, preview-price}
use playslot.Tests.Fixtures.{env, club, court, with_status, slot, at, first_day, rule}

-- The club's day, seen by a guest at eight.
abbrev day : Day
day = record {
  club = club;
  date = first_day;
  weekday = 4;
  period = record { start = 0; end = at 24 };
  now = at 8;
  user_id = none;
  duration = some 60;
  price_rules = rule 1 (pos 2_000) ∷ [];
  discount = pos 10;
  coaches = [];
}

abbrev busy : Store
busy = with_status ReservationStatus.confirmed

abbrev slot_of : ℕ → ℕ → SlotState → Slot
slot_of start_min start state = record {
  resource_id = 2;
  start_min = start_min;
  start = start;
  end = start + 3_600_000;
  state = state;
}

abbrev free_slot : Slot
free_slot = slot_of 600 (at 10) SlotState.free

quoted_charged_example :
    slot_price env day 60 court free_slot
    ≡ shown (λ cents. apply_discount cents (pos 10)) (price_for env day.price_rules slot busy).0
quoted_charged_example =
    quoted_charged env day 60 court free_slot slot busy refl refl refl refl refl

abbrev dates : Dates
dates = record { midnight = λ d. 0; iso_date = λ t. first_day }

abbrev priced_store : Store
priced_store = record busy {
  price_rules =
      record { club_id = 1; rule = rule 1 (pos 2_000) }
      ∷ record { club_id = 7; rule = rule 2 (pos 3_000) }
      ∷ [];
}

abbrev query : PreviewQuery
query = record { date = first_day; start_min = 600; duration_min = 60; resource_id = some 2 }

preview-price_example :
    (answer : PricePreviewDto) × (preview dates env 1 query priced_store
      ≡ (ok answer, priced_store))
    × (answer.currency ≡ "EUR")
    × (answer.price_cents
        ≡ shown
            (λ cents. cents)
            (price_for env (load_price_rules 1 priced_store) slot priced_store).0)
unfolding find load_price_rules filter
preview-price_example =
    preview-price env dates priced_store club query slot refl ((refl, refl, refl, refl), tt) refl
      refl refl refl

abbrev dearer : UpsertPriceRuleInput
dearer = record {
  resource_id = some 2;
  service_id = none;
  weekday_mask = none;
  start_min = none;
  end_min = none;
  valid_from = some first_day;
  valid_until = none;
  duration_min = 60;
  price_cents = pos 2_500;
  priority = pos 1;
  active = true;
}

rules_elsewhere_kept_example :
    Others 1 priced_store.price_rules (create dates 1 dearer priced_store).1
    × Others 1 priced_store.price_rules (update dates 1 1 dearer priced_store).1
    × Others 1 priced_store.price_rules (remove 1 1 priced_store).1
rules_elsewhere_kept_example =
    rules_elsewhere_kept dates 1 dearer 1 priced_store ((refl, tt), (tt, tt))
