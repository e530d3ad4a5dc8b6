-- ===== src/Domain/Cancellation.antt =====
-- packages/domain/src/cancellation.ts: the refund of a cancelled reservation. `hoursUntil` is a
-- number of milliseconds divided by 3,600,000; the model keeps the milliseconds, and compares them
-- with `minHoursBefore` hours in milliseconds. Prices and percentages are whole numbers.
pub mod Refund
use playslot.Prelude.{ℕ, Bool, true, false, Option, none, some, List, [], ◌∷◌, find, if◌then◌else◌}
use playslot.Prelude.Int.{ℤ, pos, ◌-ℤ◌, ◌*ℤ◌, ltb_ℤ, leb_ℤ, round_div, sub_ℕ}
use playslot.Prelude.Result.{Result, ok, err, ◌>>=◌, ◌>>◌, throw_if}
use playslot.Prelude.Sort.{sort}
use playslot.Domain.Time.{Instant}

pub record RefundTier : Type 0 where
  pub min_hours_before : ℤ
  pub refund_percent : ℤ

pub record RefundResult : Type 0 where
  pub refund_cents : ℤ
  pub refund_percent : ℤ

pub data RefundError : Type 0 where
  bad_price : ℤ → RefundError

-- Hours, in milliseconds.
abbrev pub Hours : Type 0
Hours = ℤ

-- `hours >= n`
abbrev pub at_least : Hours → ℤ → Bool
at_least h n = leb_ℤ (n *ℤ pos 3_600_000) h

unfoldable pub clamp_percent : ℤ → ℤ
clamp_percent p = if ltb_ℤ p (pos 0) then pos 0 else if ltb_ℤ (pos 100) p then pos 100 else p

-- `(a, b) => b.minHoursBefore - a.minHoursBefore`
abbrev pub longest_first : RefundTier → RefundTier → ℤ
longest_first a b = b.min_hours_before -ℤ a.min_hours_before

-- The tier that decides, or none.
unfoldable pub winning_tier : List RefundTier → Hours → Option RefundTier
winning_tier tiers hours = find (λ t. at_least hours t.min_hours_before) (sort longest_first tiers)

unfoldable pub percent_of_tier : Option RefundTier → ℤ
unfolding clamp_percent
percent_of_tier none = pos 0
percent_of_tier (some t) = clamp_percent t.refund_percent

unfoldable pub compute_refund : List RefundTier → Hours → ℤ → Result RefundError RefundResult
unfolding winning_tier percent_of_tier
compute_refund tiers hours_before_start price_cents = do
  throw_if (ltb_ℤ price_cents (pos 0)) (bad_price price_cents)
  let refund_percent = percent_of_tier (winning_tier tiers hours_before_start)
  ok (record {
    refund_percent = refund_percent;
    refund_cents = round_div (price_cents *ℤ refund_percent) 100;
  })

unfoldable pub hours_until : Instant → Instant → Hours
hours_until starts_at now = sub_ℕ starts_at now
