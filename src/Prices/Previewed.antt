-- ===== src/Prices/Previewed.antt =====
-- The price that is shown and the price that is charged.
use playslot.Prelude.{
  ℕ, ◌+◌, ◌-◌, ◌≡◌, refl, sym, ap, ◌∙◌, Option, none, some, List, [], ◌∷◌, filter, find, String,
  arith, ◌==◌, All,
}
use playslot.Prelude.Int.{ℤ}
use playslot.Prelude.Result.{Result, ok, err}
use playslot.Domain.Time.{Instant}
use playslot.Domain.Pricing.{
  PriceRuleLike, PriceContext, ResolvedPrice, PricingError, matches, charge, charge_first,
  resolve_price,
}
use playslot.Domain.Slots.{Slot}
use playslot.Memberships.{apply_discount}
use playslot.Store.Tables.{Store, Club, Resource}
use playslot.Store.Action.{Thrown}
use playslot.Booking.Slot.{Env, priced, ResolvedSlot, only_resource, price_for, load_price_rules}
use playslot.Availability.Day.{Day, price_shown, slot_price}
use playslot.Prices.{Dates}
use playslot.Prices.Preview.{PreviewQuery, PricePreviewDto, utc_day, preview, preview_of}

-- What an answer of `priceFor` shows, with no price where it throws.
abbrev pub shown : (ℤ → ℤ) → Result Thrown ℤ → Option ℤ
shown f (ok cents) = some (f cents)
shown f (err e) = none

same_quote :
    (f : ℤ) (s : Store) (r : Result PricingError ResolvedPrice)
    → price_shown f r ≡ shown (λ cents. apply_discount cents f) (priced r s).0
same_quote f s (ok p) = refl
same_quote f s (err e) = refl

-- The price that `getAvailability` shows for a slot of one court is the price that `priceFor` works
-- out for a booking of that court at the same weekday, instant and minutes, by the same rules, less
-- the member's discount; it shows none just where the booking finds no price.
pub quoted_charged :
    (env : Env) (day : Day) (duration : ℕ) (court : Resource) (slot : Slot) (booked : ResolvedSlot)
    (s : Store)
    → booked.weekday ≡ day.weekday
    → booked.start ≡ slot.start
    → booked.start_min ≡ slot.start_min
    → booked.end_min ≡ slot.start_min + duration
    → booked.resource_ids ≡ court.id ∷ []
    → slot_price env day duration court slot
      ≡ shown
          (λ cents. apply_discount cents day.discount)
          (price_for env day.price_rules booked s).0
unfolding slot_price price_for
quoted_charged env day duration court slot booked s weekday start from until one =
    let lasts : slot.start_min + duration - slot.start_min ≡ duration = omega arith in
    rw (weekday, start, from, until, one, lasts) (same_quote day.discount s _)

-- The rule is for all dates.
abbrev pub IsDateless : PriceRuleLike → Type 0
IsDateless r =
    (r.valid_from ≡ none) × (r.valid_until ≡ none) × (r.season_start ≡ none) × (r.season_end ≡ none)

module _ (month_day : String → Instant → ℕ) (ctx : PriceContext) (date : Instant) where
  abbrev later : PriceContext
  later = record ctx { date = date }

  matches-later :
      (r : PriceRuleLike) → IsDateless r → matches month_day r later ≡ matches month_day r ctx
  unfolding matches
  matches-later r (f, u, a, b) = rw (f, u, a, b) refl

  candidates-later :
      (rs : List PriceRuleLike)
      → All IsDateless rs
      → filter (λ r. matches month_day r later) rs ≡ filter (λ r. matches month_day r ctx) rs
  unfolding filter
  candidates-later [] h = refl
  candidates-later (r ∷ rs) (d, h) = rw (matches-later r d, candidates-later rs h) refl

  charge-later : (rs : List PriceRuleLike) → charge_first rs later ≡ charge_first rs ctx
  unfolding charge
  charge-later [] = refl
  charge-later (r ∷ rs) = refl

  resolve_price-later :
      (rs : List PriceRuleLike)
      → All IsDateless rs
      → resolve_price month_day rs later ≡ resolve_price month_day rs ctx
  unfolding resolve_price
  resolve_price-later rs h = rw (candidates-later rs h) (charge-later _)

same_price :
    (currency : String) (s : Store) (r : Result PricingError ResolvedPrice)
    → (preview_of currency r).price_cents ≡ shown (λ cents. cents) (priced r s).0
same_price currency s (ok p) = refl
same_price currency s (err e) = refl

currency_of :
    (currency : String) (r : Result PricingError ResolvedPrice)
    → (preview_of currency r).currency ≡ currency
currency_of currency (ok p) = refl
currency_of currency (err e) = refl

-- For a club whose active price rules are all for all dates, the preview returns, in the club's
-- currency, the price that `priceFor` works out for a booking of the same weekday, minutes and court,
-- whatever the two dates are; and no price just where the booking finds none.
pub preview-price :
    (env : Env) (dates : Dates) (s : Store) (club : Club) (query : PreviewQuery)
    (booked : ResolvedSlot)
    → find (λ (c : Club). c.id == club.id) s.clubs ≡ some club
    → All IsDateless (load_price_rules club.id s)
    → booked.weekday ≡ utc_day (dates.midnight query.date)
    → booked.start_min ≡ query.start_min
    → booked.end_min ≡ query.start_min + query.duration_min
    → only_resource booked.resource_ids ≡ query.resource_id
    → (answer : PricePreviewDto) × (preview dates env club.id query s ≡ (ok answer, s))
      × (answer.currency ≡ club.currency)
      × (answer.price_cents
          ≡ shown (λ cents. cents) (price_for env (load_price_rules club.id s) booked s).0)
unfolding preview price_for
preview-price env dates s club query booked found dateless weekday from until one =
    let lasts : query.start_min + query.duration_min - query.start_min ≡ query.duration_min =
      omega arith in
    let ctx : PriceContext = record {
      weekday = utc_day (dates.midnight query.date);
      slot_start_min = query.start_min;
      slot_end_min = query.start_min + query.duration_min;
      duration_min = query.duration_min;
      date = dates.midnight query.date;
      resource_id = query.resource_id;
      service_id = none;
      time_zone = none;
    } in
    let answer = resolve_price env.month_day (load_price_rules club.id s) ctx in
    (
      preview_of club.currency answer,
      rw found refl,
      currency_of club.currency answer,
      rw (weekday, from, until, one, lasts)
          (same_price club.currency s answer
            ∙ ap (λ r. shown (λ cents. cents) (priced r s).0)
                (sym (
                  resolve_price-later env.month_day ctx booked.start (load_price_rules club.id s)
                    dateless))),
    )
