-- ===== src/Domain/Slots/Rounds.antt =====
-- The loops of `generateSlots`: the invariant of their slots, and which minutes they see.
use playslot.Prelude.{
  ℕ, ◌≡◌, ◌≢◌, refl, sym, subst, true, false, ◌||◌, List, [], ◌∷◌, ◌++◌, map, contains, All,
  Bool-cases, inl, inr, arith, ◌==◌,
}
use playslot.Prelude.Result.{ok, >>=-eq-ok}
use playslot.Domain.Time.{Instant, instant_from_day_minutes}
use playslot.Domain.Slots.{
  GenerateSlotsInput, Slot, Loop, slot_at, half_hour_refused, reads_back, visit, visit_all,
}
use playslot.Domain.Slots.Visit.{IsSlotAt, Round, refused, repeated, gap, pushed, visit-Round}

-- The minutes at which the slots begin.
abbrev pub starts : List Slot → List ℕ
starts = map (λ s. s.start_min)

-- No two slots begin at the same minute.
abbrev pub Distinct : List Slot → Type 0
Distinct [] = Unit
Distinct (s ∷ ss) = (contains (starts ss) s.start_min ≡ false) × Distinct ss

contains-starts :
    (ss : List Slot) (s : Slot) (m : ℕ)
    → contains (starts (ss ++ s ∷ [])) m ≡ (contains (starts ss) m || s.start_min == m)
contains-starts [] s m = ground arith
contains-starts (x ∷ ss) s m = ground (arith, contains-starts ss s m)

Distinct-append :
    (ss : List Slot) (s : Slot)
    → Distinct ss
    → contains (starts ss) s.start_min ≡ false
    → Distinct (ss ++ s ∷ [])
Distinct-append [] s d h = (refl, tt)
Distinct-append (x ∷ ss) s d h =
    (ground (arith, contains-starts ss s x.start_min), Distinct-append ss s d.1 (ground arith))

All-snoc {κ} :
    (P : Slot → Type κ) (ss : List Slot) (s : Slot) → All P ss → P s → All P (ss ++ s ∷ [])
All-snoc P [] s h p = (p, tt)
All-snoc P (x ∷ ss) s h p = (h.0, All-snoc P ss s h.1 p)

module _ (input : GenerateSlotsInput) where
  -- The clock of that day shows the minute.
  abbrev pub IsShown : ℕ → Type 0
  IsShown m =
      (t : Instant)
      → instant_from_day_minutes input.zone input.iso_date m ≡ ok t
      → reads_back input.zone t m ≡ true

  gap_not_shown :
      (k m : ℕ) (t : Instant)
      → IsShown k
      → instant_from_day_minutes input.zone input.iso_date m ≡ ok t
      → reads_back input.zone t m ≡ false
      → m ≢ k
  gap_not_shown k m t sh e q same =
      let later : reads_back input.zone t m ≡ true =
        subst (λ x. reads_back input.zone t x ≡ true) (sym same)
          (sh t
            (subst (λ x. instant_from_day_minutes input.zone input.iso_date x ≡ ok t) same e)) in
      absurd (cc)

  module _ (P : ℕ → Type 0) where
    -- The slot stands for a minute with the property.
    abbrev pub StandsFor : Slot → Type 0
    StandsFor s = (m : ℕ) × IsSlotAt input m s × P m

    -- The invariant of both loops.
    pub record Inv (loop : Loop) : Type 0 where
      pub good : All StandsFor loop.slots
      pub distinct : Distinct loop.slots
      pub listed : (m : ℕ) → contains (starts loop.slots) m ≡ true → contains loop.seen m ≡ true
      pub shown :
          (m : ℕ) → contains loop.seen m ≡ true → IsShown m → contains (starts loop.slots) m ≡ true

    start_of : (m : ℕ) (s : Slot) → IsSlotAt input m s → s.start_min ≡ m
    unfolding slot_at
    start_of m s g = ground (arith, g.is_slot)

    Round-Inv : (loop next : Loop) (m : ℕ) → P m → Inv loop → Round input loop m next → Inv next
    Round-Inv loop _ m p v (refused r) = v
    Round-Inv loop _ m p v (repeated r) = v
    Round-Inv loop _ m p v (gap t e q) = record {
      good = v.good;
      distinct = v.distinct;
      listed = λ k h. ground (arith, v.listed k h);
      shown = λ k h sh. ground (arith, v.shown k, gap_not_shown k m t sh e q);
    }
    Round-Inv loop _ m p v (pushed s g fresh) = record {
      good = All-snoc StandsFor loop.slots s v.good (m, g, p);
      distinct =
          Distinct-append loop.slots s v.distinct
            (ground (arith, v.listed s.start_min, start_of m s g));
      listed = λ k h. ground (arith, v.listed k, start_of m s g, contains-starts loop.slots s k);
      shown = λ k h sh. ground (arith, v.shown k, start_of m s g, contains-starts loop.slots s k);
    }

    pub visit_all-Inv :
        (ms : List ℕ) (loop next : Loop)
        → All P ms
        → Inv loop
        → visit_all input ms loop ≡ ok next
        → Inv next
    unfolding visit_all
    visit_all-Inv [] loop next p v h = subst Inv (ground arith) v
    visit_all-Inv (m ∷ ms) loop next p v h =
        let (mid, e, k) = >>=-eq-ok (visit input loop m) (visit_all input ms) {b = next} h in
        visit_all-Inv ms mid next p.1 (Round-Inv loop mid m p.0 v (visit-Round input loop mid m e))
          k

  Round-seen :
      (loop next : Loop) (m k : ℕ)
      → Round input loop m next
      → contains loop.seen k ≡ true
      → contains next.seen k ≡ true
  Round-seen loop _ m k (refused r) h = h
  Round-seen loop _ m k (repeated r) h = h
  Round-seen loop _ m k (gap t e q) h = ground arith
  Round-seen loop _ m k (pushed s g f) h = ground arith

  Round-visits :
      (loop next : Loop) (m : ℕ)
      → Round input loop m next
      → half_hour_refused input.resource m ≡ false
      → contains next.seen m ≡ true
  Round-visits loop _ m (refused r) h = absurd (cc)
  Round-visits loop _ m (repeated r) h = r
  Round-visits loop _ m (gap t e q) h = ground arith
  Round-visits loop _ m (pushed s g f) h = ground arith

  pub visit_all-seen :
      (ms : List ℕ) (loop next : Loop) (k : ℕ)
      → visit_all input ms loop ≡ ok next
      → contains loop.seen k ≡ true
      → contains next.seen k ≡ true
  unfolding visit_all
  visit_all-seen [] loop next k h c =
      let same : loop ≡ next = ground arith in subst (λ l. contains l.seen k ≡ true) same c
  visit_all-seen (m ∷ ms) loop next k h c =
      let (mid, e, h') = >>=-eq-ok (visit input loop m) (visit_all input ms) {b = next} h in
      visit_all-seen ms mid next k h' (Round-seen loop mid m k (visit-Round input loop mid m e) c)

  -- A minute of the list that is not refused has been seen when the loop ends.
  pub visit_all-visits :
      (ms : List ℕ) (loop next : Loop) (k : ℕ)
      → visit_all input ms loop ≡ ok next
      → contains ms k ≡ true
      → half_hour_refused input.resource k ≡ false
      → contains next.seen k ≡ true
  unfolding visit_all
  visit_all-visits [] loop next k h c r = absurd (cc)
  visit_all-visits (m ∷ ms) loop next k h c r =
      let (mid, e, h') = >>=-eq-ok (visit input loop m) (visit_all input ms) {b = next} h in
      elim (Bool-cases (m == k)) [
        | inl same ↦
            let q : m ≡ k = ground arith in
            visit_all-seen ms mid next k h' (
              subst (λ x. contains mid.seen x ≡ true) q
                (Round-visits loop mid m (visit-Round input loop mid m e)
                  (subst (λ x. half_hour_refused input.resource x ≡ false) (sym q) r)))
        | inr other ↦ visit_all-visits ms mid next k h' (ground arith) r
      ]
