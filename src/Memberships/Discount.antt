-- ===== src/Memberships/Discount.antt =====
-- The member discount: which one applies, and what it leaves of the price.

use playslot.Domain.Money.Rounding.{round_pos}
use playslot.Prelude.{
  ℕ, zero, suc, ◌+◌, ◌-◌, ◌*◌, ◌/◌, ◌≤◌, ◌≡◌, refl, false, List, [], ◌∷◌, filter, none, some, All,
  arith, ◌==◌,
}
use playslot.Prelude.Int.{ℤ, pos, ◌≤ℤ◌, ◌-ℤ◌}
use playslot.Domain.Time.{Instant}
use playslot.Store.Tables.{Store, MembershipPlan, Membership}
use playslot.Memberships.{
  max_ℤ, plan_discount, best_discount, is_current, discount_percent, apply_discount,
}

module _ (plans : List MembershipPlan) where
  abbrev off : Membership → ℤ
  off m = plan_discount m.plan_id plans

  best-grows : (acc : ℤ) (ms : List Membership) → acc ≤ℤ best_discount plans acc ms
  unfolding best_discount
  best-grows acc [] = omega arith
  best-grows acc (m ∷ ms) = ground (arith, best-grows (max_ℤ acc (off m)) ms)

  best-bounds : (acc : ℤ) (ms : List Membership) → All (λ m. off m ≤ℤ best_discount plans acc ms) ms
  unfolding best_discount
  best-bounds acc [] = tt
  best-bounds acc (m ∷ ms) =
      (ground (arith, best-grows (max_ℤ acc (off m)) ms), best-bounds (max_ℤ acc (off m)) ms)

-- The discount of a user with an id above 0 is at least 0, and at least that of the plan of each
-- membership of the club that is still valid; one without an account, or with the id 0, has none.
pub discount_percent-bounds :
    (club_id b : ℕ) (now : Instant) (s : Store)
    → (pos 0 ≤ℤ discount_percent club_id (some (b + 1)) now s)
      × All
          (λ m. plan_discount m.plan_id s.plans ≤ℤ discount_percent club_id (some (b + 1)) now s)
          (filter (is_current club_id (b + 1) now) s.memberships)
      × (discount_percent club_id (some 0) now s ≡ pos 0)
      × (discount_percent club_id none now s ≡ pos 0)
unfolding discount_percent
discount_percent-bounds club_id b now s =
    let ms = filter (is_current club_id (b + 1) now) s.memberships in
    let other : (b + 1 == 0) ≡ false = ground arith in
    rw other (best-grows s.plans (pos 0) ms, best-bounds s.plans (pos 0) ms, refl, refl)

abbrev left : ℕ → ℕ → ℕ
left n d = (2 * (n * (100 - d)) + 100) / 200

share-le : (n p : ℕ) → p ≤ 100 → n * p ≤ n * 100
share-le n p h = grind arith

left-le : (n d : ℕ) → left n d ≤ n
left-le n d = omega (arith, share-le n (100 - d) (omega arith))

discounted : (n d : ℕ) → d ≤ 99 → apply_discount (pos n) (pos (suc d)) ≡ pos (left n (suc d))
unfolding apply_discount ◌-ℤ◌
discounted n d h = ground (arith, round_pos n (100 - suc d) 100)

-- A discount of 0 to 100 percent leaves a price between 0 and the price before; 0 leaves it as it
-- was, and 100 leaves nothing.
pub apply_discount-bounds :
    (n d : ℕ)
    → d ≤ 100
    → (c : ℕ) × (apply_discount (pos n) (pos d) ≡ pos c)
      × (c ≤ n)
      × (d ≡ 0 → c ≡ n)
      × (d ≡ 100 → c ≡ 0)
unfolding apply_discount
apply_discount-bounds n zero h = (n, refl, omega arith, λ e. refl, λ e. absurd (omega arith))
apply_discount-bounds n (suc d) h = (
  left n (suc d),
  discounted n d (omega arith),
  left-le n (suc d),
  λ e. absurd (omega arith),
  λ e. ground arith,
)
