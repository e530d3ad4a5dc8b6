-- ===== src/Prices/Preview.antt =====
-- apps/api/src/pricing/pricing.service.ts, `preview`: the price that an admin tries out.
use playslot.Prelude.{ℕ, ◌+◌, ◌/◌, ◌%◌, String, Option, none, some, find, ◌==◌}
use playslot.Prelude.Int.{ℤ}
use playslot.Prelude.Result.{Result, ok, err}
use playslot.Domain.Time.{Instant, IsoDate}
use playslot.Domain.Pricing.{ResolvedPrice, PricingError, resolve_price}
use playslot.Store.Tables.{Club}
use playslot.Store.Action.{Action, app_exception, not_found, ◌>>=◌, pure, gets, or_throw}
use playslot.Booking.Slot.{Env, load_price_rules}
use playslot.Prices.{Dates}

pub record PricePreviewDto : Type 0 where
  pub price_cents : Option ℤ
  pub currency : String
  pub rule_id : Option ℕ
  -- 'no_rule'
  pub error : Option String

pub record PreviewQuery : Type 0 where
  pub date : IsoDate
  pub start_min : ℕ
  pub duration_min : ℕ
  pub resource_id : Option ℕ

-- `date.getUTCDay()`. The first day of 1970 was a Thursday.
abbrev pub utc_day : Instant → ℕ
utc_day t = (t / 86_400_000 + 4) % 7

abbrev pub preview_of : String → Result PricingError ResolvedPrice → PricePreviewDto
preview_of currency (ok p) = record {
  price_cents = some p.price_cents;
  currency = currency;
  rule_id = some p.rule_id;
  error = none;
}
preview_of currency (err e) = record {
  price_cents = none;
  currency = currency;
  rule_id = none;
  error = some "no_rule";
}

module _ (dates : Dates) where
  unfoldable pub preview : Env → ℕ → PreviewQuery → Action PricePreviewDto
  preview env club_id query = do
    club ←
        or_throw (← gets (λ s. find (λ (c : Club). c.id == club_id) s.clubs))
          (app_exception not_found "")
    rules ← gets (load_price_rules club_id)
    let date = dates.midnight query.date
    pure (
        preview_of club.currency (
          resolve_price env.month_day rules (record {
            weekday = utc_day date;
            slot_start_min = query.start_min;
            slot_end_min = query.start_min + query.duration_min;
            duration_min = query.duration_min;
            date = date;
            resource_id = query.resource_id;
            service_id = none;
            time_zone = none;
          })))
