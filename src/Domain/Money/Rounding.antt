-- ===== src/Domain/Money/Rounding.antt =====
-- Shares of an amount in money.ts: what rounding half up does to them.
use playslot.Prelude.{ℕ, ◌+◌, ◌-◌, ◌*◌, ◌/◌, ◌≤◌, ◌<◌, ◌≡◌, ◌⊎◌, arith, length, ap, map}
use playslot.Prelude.Int.{pos, ◌*ℤ◌, ◌+ℤ◌, round_div}
use playslot.Prelude.Result.{ok}
use playslot.Domain.Money.{Money, to_upper, money, percent_of, price_for_duration}

-- Of a non-negative product the rounded quotient.
pub round_pos : (a b d : ℕ) → round_div (pos a *ℤ pos b) d ≡ pos ((2 * (a * b) + d) / (2 * d))
unfolding round_div ◌*ℤ◌
round_pos a b d = ground arith

-- The two rounded parts of a whole of n * 100.
parts_sum :
    (n p : ℕ)
    → p ≤ 100
    → let x = (2 * (n * p) + 100) / 200 in
      let y = (2 * (n * (100 - p)) + 100) / 200 in (x + y ≡ n) ⊎ (x + y ≡ n + 1)
parts_sum n p h =
    let rest : p + (100 - p) ≡ 100 = omega arith in
    let whole : n * p + n * (100 - p) ≡ n * 100 = omega (arith, ap (λ (t : ℕ). n * t) rest) in
    ground arith

-- Of an amount of n >= 0 cents, in a currency of three letters, both a share of p percent and the
-- share of the rest are computed, and together they are the amount or one cent more.
pub percent_of_parts :
    (a : Money) (n p : ℕ)
    → a.amount_cents ≡ pos n
    → length a.currency ≡ 3
    → p ≤ 100
    → (x y : Money) × (percent_of a (pos p) ≡ ok x)
      × (percent_of a (pos (100 - p)) ≡ ok y)
      × ((x.amount_cents +ℤ y.amount_cents ≡ pos n)
          ⊎ (x.amount_cents +ℤ y.amount_cents ≡ pos (n + 1)))
unfolding percent_of money ◌+ℤ◌
percent_of_parts a n p e l h = (
  record {
    amount_cents = round_div (a.amount_cents *ℤ pos p) 100;
    currency = map to_upper a.currency;
  },
  record {
    amount_cents = round_div (a.amount_cents *ℤ pos (100 - p)) 100;
    currency = map to_upper a.currency;
  },
  ground arith,
  ground arith,
  simp (e, round_pos) (ground (arith, parts_sum n p h)),
)

-- A price of n >= 0 cents an hour, for m > 0 minutes: the result r is at most half a cent from
-- n * m / 60, above it if at both (120 r - 2 n m <= 60 and 2 n m - 120 r < 60), and is n for an hour.
pub price_for_duration_bounds :
    (n m : ℕ)
    → 0 < m
    → (r : ℕ) × (price_for_duration (pos n) (pos m) ≡ ok (pos r))
      × (120 * r ≤ 2 * (n * m) + 60)
      × (2 * (n * m) < 120 * r + 60)
      × (m ≡ 60 → r ≡ n)
unfolding price_for_duration
price_for_duration_bounds n m h = (
  (2 * (n * m) + 60) / 120,
  simp round_pos (ground arith),
  omega arith,
  omega arith,
  λ e. rw e (omega arith),
)
