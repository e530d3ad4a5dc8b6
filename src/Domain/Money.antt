-- ===== src/Domain/Money.antt =====
-- packages/domain/src/money.ts: amounts in whole cents. An amount is an integer by its type, so the
-- checks `Number.isInteger` always pass. A currency code is its list of character codes.
-- `formatMoney` only calls Intl and is left out.
pub mod Rounding
use playslot.Prelude.{
  ℕ, ◌-◌, Bool, true, false, ◌&&◌, ◌||◌, not, List, [], ◌∷◌, length, map, leb, ◌==◌, if◌then◌else◌,
}
use playslot.Prelude.Int.{ℤ, pos, ◌+ℤ◌, ◌-ℤ◌, ◌*ℤ◌, ltb_ℤ, round_div}
use playslot.Prelude.Text.{codes_eq}
use playslot.Prelude.Result.{Result, ok, err, ◌>>=◌, ◌>>◌, throw_if}

abbrev pub CurrencyCode : Type 0
CurrencyCode = List ℕ

pub record Money : Type 0 where
  pub amount_cents : ℤ
  pub currency : CurrencyCode

pub data MoneyError : Type 0 where
  bad_currency : CurrencyCode → MoneyError
  currency_mismatch : CurrencyCode → CurrencyCode → MoneyError
  bad_percent : ℤ → MoneyError
  bad_duration : ℤ → MoneyError

-- `toUpperCase` on ASCII.
abbrev pub to_upper : ℕ → ℕ
to_upper c = if leb b'a' c && leb c b'z' then c - 32 else c

unfoldable pub money : ℤ → CurrencyCode → Result MoneyError Money
money amount_cents currency = do
  throw_if (not (length currency == 3)) (bad_currency currency)
  ok (record { amount_cents = amount_cents; currency = map to_upper currency })

unfoldable pub assert_same_currency : Money → Money → Result MoneyError (Unit {0})
assert_same_currency a b =
    throw_if (not (codes_eq a.currency b.currency)) (currency_mismatch a.currency b.currency)

unfoldable pub add_money : Money → Money → Result MoneyError Money
unfolding money assert_same_currency
add_money a b = do assert_same_currency a b; money (a.amount_cents +ℤ b.amount_cents) a.currency

unfoldable pub subtract_money : Money → Money → Result MoneyError Money
unfolding money assert_same_currency
subtract_money a b = do
  assert_same_currency a b
  money (a.amount_cents -ℤ b.amount_cents) a.currency

unfoldable pub multiply_money : Money → ℤ → Result MoneyError Money
unfolding money
multiply_money a quantity = money (a.amount_cents *ℤ quantity) a.currency

unfoldable pub percent_of : Money → ℤ → Result MoneyError Money
unfolding money
percent_of a percent = do
  throw_if (ltb_ℤ percent (pos 0) || ltb_ℤ (pos 100) percent) (bad_percent percent)
  money (round_div (a.amount_cents *ℤ percent) 100) a.currency

unfoldable pub price_for_duration : ℤ → ℤ → Result MoneyError ℤ
price_for_duration hourly_cents duration_min = do
  throw_if (not (ltb_ℤ (pos 0) duration_min)) (bad_duration duration_min)
  ok (round_div (hourly_cents *ℤ duration_min) 60)
