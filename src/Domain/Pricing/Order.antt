-- ===== src/Domain/Pricing/Order.antt =====
-- The comparator of `resolvePrice` is a total order of the rules.
use playslot.Prelude.{ℕ, ◌≤◌, ◌<◌, ◌≡◌, ◌⊎◌, inl, inr, true, arith, leb}
use playslot.Prelude.Int.{◌<ℤ◌, eq_of_parts, leb_ℤ, pos, sub_ℕ, -ℤ_nonpos}
use playslot.Prelude.Sort.{before, IsOrder}
use playslot.Domain.Pricing.{PriceRuleLike, specificity, precedence}

-- `w` takes precedence over `r`, or is equal to it in all that is compared: a higher priority, or
-- the same and a greater specificity, or the same and at least as high an id.
abbrev pub Precedes : PriceRuleLike → PriceRuleLike → Type 0
Precedes w r =
    (r.priority <ℤ w.priority)
    ⊎ ((r.priority ≡ w.priority)
        × ((specificity r < specificity w) ⊎ ((specificity r ≡ specificity w) × (r.id ≤ w.id))))

sub_nonpos : (a b : ℕ) → leb_ℤ (sub_ℕ a b) (pos 0) ≡ leb a b
sub_nonpos a b = ground arith

pub Precedes-of_before : (w r : PriceRuleLike) → before precedence w r ≡ true → Precedes w r
unfolding precedence
Precedes-of_before w r h = ground (
  arith,
  -ℤ_nonpos r.priority w.priority,
  sub_nonpos (specificity r) (specificity w),
  sub_nonpos r.id w.id,
  eq_of_parts r.priority w.priority,
)

before_of_Precedes : (w r : PriceRuleLike) → Precedes w r → before precedence w r ≡ true
unfolding precedence
before_of_Precedes w r h = ground (
  arith,
  -ℤ_nonpos r.priority w.priority,
  sub_nonpos (specificity r) (specificity w),
  sub_nonpos r.id w.id,
  eq_of_parts r.priority w.priority,
)

Precedes-trans : (a b c : PriceRuleLike) → Precedes a b → Precedes b c → Precedes a c
Precedes-trans a b c h k = ground arith

Precedes-total : (a b : PriceRuleLike) → Precedes a b ⊎ Precedes b a
Precedes-total a b = ground (arith, eq_of_parts a.priority b.priority)

pub precedence-IsOrder : IsOrder precedence
precedence-IsOrder = record {
  total = λ a b h. elim (Precedes-total a b) [
    | inl p ↦ let yes_before = before_of_Precedes a b p in cc
    | inr p ↦ before_of_Precedes b a p
  ];
  trans = λ a b c h k.
      before_of_Precedes a c
        (Precedes-trans a b c (Precedes-of_before a b h) (Precedes-of_before b c k));
}
