-- ===== src/Domain/Slots/Sorted.antt =====
-- The final sort of `generateSlots`: slots with distinct start minutes come out in increasing order.
use playslot.Prelude.{
  ℕ, ◌<◌, ◌≡◌, refl, true, false, ◌||◌, List, [], ◌∷◌, contains, All, Bool-cases, inl, inr, arith,
  leb, ◌==◌,
}
use playslot.Prelude.Sort.{before, insert, sort, IsOrder, IsSorted, sort-IsSorted}
use playslot.Domain.Slots.{Slot, by_start}
use playslot.Domain.Slots.Rounds.{starts, Distinct}

-- Each slot begins before all later ones.
abbrev pub IsIncreasing : List Slot → Type 0
IsIncreasing [] = Unit
IsIncreasing (s ∷ ss) = All (λ t. s.start_min < t.start_min) ss × IsIncreasing ss

by_start-before : (a b : Slot) → before by_start a b ≡ leb a.start_min b.start_min
by_start-before a b = ground arith

by_start-IsOrder : IsOrder by_start
by_start-IsOrder = record { total = λ a b h. ground arith; trans = λ a b c h k. ground arith }

contains-insert :
    (s : Slot) (ss : List Slot) (m : ℕ)
    → contains (starts (insert by_start s ss)) m ≡ (s.start_min == m || contains (starts ss) m)
unfolding insert
contains-insert s [] m = refl
contains-insert s (t ∷ ss) m = elim (Bool-cases (before by_start s t)) [
  | inl e ↦ rw e
  | inr e ↦ rw e (ground (arith, contains-insert s ss m))
]

-- Sorting keeps the start minutes.
pub contains-sort :
    (ss : List Slot) (m : ℕ) → contains (starts (sort by_start ss)) m ≡ contains (starts ss) m
unfolding sort
contains-sort [] m = refl
contains-sort (s ∷ ss) m =
    ground (arith, contains-insert s (sort by_start ss) m, contains-sort ss m)

insert-Distinct :
    (s : Slot) (ss : List Slot)
    → contains (starts ss) s.start_min ≡ false
    → Distinct ss
    → Distinct (insert by_start s ss)
unfolding insert
insert-Distinct s [] h d = (refl, tt)
insert-Distinct s (t ∷ ss) h d = elim (Bool-cases (before by_start s t)) [
  | inl e ↦ rw e (h, d)
  | inr e ↦
      rw e
        (ground (arith, contains-insert s ss t.start_min), insert-Distinct s ss (ground arith) d.1)
]

sort-Distinct : (ss : List Slot) → Distinct ss → Distinct (sort by_start ss)
unfolding sort
sort-Distinct [] d = tt
sort-Distinct (s ∷ ss) (h, d) =
    insert-Distinct s (sort by_start ss) (ground (arith, contains-sort ss s.start_min))
      (sort-Distinct ss d)

apart :
    (s : Slot) (ss : List Slot)
    → All (λ t. before by_start s t ≡ true) ss
    → contains (starts ss) s.start_min ≡ false
    → All (λ t. s.start_min < t.start_min) ss
apart s [] a h = tt
apart s (t ∷ ss) (p, a) h = (ground (arith, by_start-before s t), apart s ss a (ground arith))

increasing : (ss : List Slot) → IsSorted by_start ss → Distinct ss → IsIncreasing ss
increasing [] o d = tt
increasing (s ∷ ss) (a, o) (h, d) = (apart s ss a h, increasing ss o d)

pub sort-IsIncreasing : (ss : List Slot) → Distinct ss → IsIncreasing (sort by_start ss)
sort-IsIncreasing ss d = increasing _ (sort-IsSorted by_start-IsOrder ss) (sort-Distinct ss d)
