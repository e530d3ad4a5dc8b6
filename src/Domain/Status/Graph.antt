-- ===== src/Domain/Status/Graph.antt =====
-- The transition table of reservation.ts as a graph: chains of legal transitions are short, never
-- come back to a status, and never take inventory that was released.
use playslot.Prelude.{ℕ, zero, suc, ◌+◌, ◌≤◌, ◌≡◌, ◌⊎◌, ◌↔◌, true, false, arith}
use playslot.Domain.Status.{
  ReservationStatus, hold, pending_payment, pending_approval, confirmed, completed, no_show,
  cancelled, refunded, can_transition, occupies_inventory, assert_transition,
  reservation_transition_error,
}

-- A chain of legal transitions, with their number.
pub data Chain (s : ReservationStatus) : ℕ → ReservationStatus → Type 0 where
  here : Chain s zero s
  next :
      {n : ℕ} {t u : ReservationStatus}
      → Chain s n t
      → can_transition t u ≡ true
      → Chain s (suc n) u

-- How many transitions may follow.
abbrev height : ReservationStatus → ℕ
height hold = 5
height pending_payment = 4
height pending_approval = 3
height confirmed = 2
height completed = 1
height no_show = 0
height cancelled = 1
height refunded = 0

can_transition-height :
    (s t : ReservationStatus) → can_transition s t ≡ true → suc (height t) ≤ height s
unfolding can_transition
can_transition-height s t h = ground arith

Chain-height : {s t : ReservationStatus} {n : ℕ} → Chain s n t → n + height t ≤ height s
Chain-height here = omega arith
Chain-height (next {t} {u} c h) = omega (arith, Chain-height c, can_transition-height t u h)

height_bound : (s : ReservationStatus) → height s ≤ 5
height_bound s = ground arith

-- A chain of legal transitions has at most five, and one that has any does not come back to the
-- status in which it began.
pub Chain-bounded : {s t : ReservationStatus} {n : ℕ} → Chain s n t → (n ≤ 5) × (s ≡ t → n ≡ 0)
Chain-bounded {s} {t} {n} c =
    (omega (arith, Chain-height c, height_bound s), λ e. omega (arith, Chain-height c, ap_height e))
  where
    ap_height : s ≡ t → height s ≡ height t
    ap_height e = cc

released_step :
    (s t : ReservationStatus)
    → can_transition s t ≡ true
    → occupies_inventory s ≡ false
    → occupies_inventory t ≡ false
unfolding can_transition occupies_inventory
released_step s t h k = ground arith

-- From a status that does not occupy inventory every chain of legal transitions leads to one that
-- does not either.
pub Chain-released :
    {s t : ReservationStatus} {n : ℕ}
    → Chain s n t
    → occupies_inventory s ≡ false
    → occupies_inventory t ≡ false
Chain-released here k = k
Chain-released (next {t} {u} c h) k = released_step t u h (Chain-released c k)

-- No transition leaves a status exactly when that is NO_SHOW or REFUNDED, and there
-- `assert_transition` refuses every change with both statuses.
pub final_iff :
    (s : ReservationStatus)
    → ((u : ReservationStatus) → assert_transition s u ≡ reservation_transition_error s u)
      ↔ ((s ≡ no_show) ⊎ (s ≡ refunded))
unfolding can_transition assert_transition
final_iff s = (λ h. ground (arith, h cancelled, h refunded), λ e u. ground arith)
