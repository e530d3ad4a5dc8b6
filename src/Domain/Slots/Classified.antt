-- ===== src/Domain/Slots/Classified.antt =====
-- The state that `classify` gives a slot.
use playslot.Prelude.{
  ◌<◌, ◌≡◌, ◌↔◌, Bool, false, List, All, any, find, Option, none, some, arith, any-false,
  any-false_of_All, refl,
}
use playslot.Prelude.Select.{find-none, find-none_of_All}
use playslot.Domain.Time.{Instant, Interval, intervals_overlap}
use playslot.Domain.Slots.{SlotState, OccupancyState, Occupancy, slot_state_of, classify}

-- The two intervals have no instant in common, as far as the test tells.
abbrev pub Apart : Interval → Interval → Type 0
Apart a b = intervals_overlap a b ≡ false

hit_not_free : (s : OccupancyState) → slot_state_of s ≡ SlotState.free → ⊥
hit_not_free s h = ground arith

module _ (slot : Interval) where
  abbrev over : Occupancy → Bool
  over o = intervals_overlap slot o.interval

  -- Where neither the past nor a closure decides.
  abbrev by_hit : Option Occupancy → SlotState
  by_hit none = SlotState.free
  by_hit (some hit) = slot_state_of hit.state

  by_hit-free : (o : Option Occupancy) → by_hit o ≡ SlotState.free → o ≡ none
  by_hit-free none h = refl
  by_hit-free (some hit) h = absurd (hit_not_free hit.state h)

-- A slot is FREE exactly when it begins after now and is apart from every closure and from every
-- occupied interval.
pub classify-free_iff :
    (start end now : Instant) (closures : List Interval) (occupancy : List Occupancy)
    → let slot : Interval = record { start = start; end = end } in
      (classify start end now closures occupancy ≡ SlotState.free)
      ↔ ((now < start) × All (Apart slot) closures × All (λ o. Apart slot o.interval) occupancy)
unfolding classify
classify-free_iff start end now closures occupancy =
    let slot : Interval = record { start = start; end = end } in
    let closed = any (λ c. intervals_overlap slot c) closures in
    (
      λ h.
          let open_now : closed ≡ false = ground arith in
          let none_hit : find (over slot) occupancy ≡ none =
            by_hit-free slot (find (over slot) occupancy) (ground arith) in
          (
            ground arith,
            any-false (λ c. intervals_overlap slot c) closures open_now,
            find-none (over slot) occupancy none_hit,
          ),
      λ (later, open_now, clear). ground (
        arith,
        any-false_of_All (λ c. intervals_overlap slot c) closures open_now,
        find-none_of_All (over slot) occupancy clear,
      ),
    )
