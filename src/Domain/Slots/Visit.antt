-- ===== src/Domain/Slots/Visit.antt =====
-- One round of the inner loop of `generateSlots`.
use playslot.Prelude.{
  ℕ, ◌+◌, ◌≡◌, refl, subst, true, false, [], ◌∷◌, ◌++◌, Bool-cases, inl, inr, contains, arith,
}
use playslot.Prelude.Result.{ok, >>=-eq-ok}
use playslot.Domain.Time.{Instant, instant_from_day_minutes}
use playslot.Domain.Slots.{
  GenerateSlotsInput, Slot, Loop, slot_at, half_hour_refused, reads_back, visit_from, visit,
}

-- The slot stands for the minute: it begins and ends at the instants of its local times, which the
-- clock shows that day.
pub record IsSlotAt (input : GenerateSlotsInput) (m : ℕ) (s : Slot) : Type 0 where
  pub from : Instant
  pub until : Instant
  pub starts : instant_from_day_minutes input.zone input.iso_date m ≡ ok from
  pub ends : instant_from_day_minutes input.zone input.iso_date (m + input.duration_min) ≡ ok until
  pub whole_hours : half_hour_refused input.resource m ≡ false
  pub reads : reads_back input.zone from m ≡ true
  pub is_slot : s ≡ slot_at input m from until

-- What a round that does not throw has done.
pub data Round (input : GenerateSlotsInput) (loop : Loop) (m : ℕ) : Loop → Type 0 where
  refused : half_hour_refused input.resource m ≡ true → Round input loop m loop
  repeated : contains loop.seen m ≡ true → Round input loop m loop
  gap :
      (t : Instant)
      → instant_from_day_minutes input.zone input.iso_date m ≡ ok t
      → reads_back input.zone t m ≡ false
      → Round input loop m (record { seen = m ∷ loop.seen; slots = loop.slots })
  pushed :
      (s : Slot)
      → IsSlotAt input m s
      → contains loop.seen m ≡ false
      → Round input loop m (record { seen = m ∷ loop.seen; slots = loop.slots ++ s ∷ [] })

visit_from-Round :
    (input : GenerateSlotsInput) (loop next : Loop) (m : ℕ) (start : Instant)
    → instant_from_day_minutes input.zone input.iso_date m ≡ ok start
    → half_hour_refused input.resource m ≡ false
    → contains loop.seen m ≡ false
    → visit_from input loop m start ≡ ok next
    → Round input loop m next
unfolding visit_from
visit_from-Round input loop next m start e r s k =
    elim (Bool-cases (reads_back input.zone start m)) [
      | inr q ↦ subst (Round input loop m) (ground arith) (gap start e q)
      | inl q ↦
          let (end, e', k') =
            >>=-eq-ok (instant_from_day_minutes input.zone input.iso_date (m + input.duration_min))
              (λ end. ok (record {
                seen = m ∷ loop.seen;
                slots = loop.slots ++ slot_at input m start end ∷ [];
              }))
              {b = next} (ground arith) in
          subst (Round input loop m) (ground arith) (
            pushed (slot_at input m start end)
              (record {
                from = start;
                until = end;
                starts = e;
                ends = e';
                whole_hours = r;
                reads = q;
                is_slot = refl;
              })
              s)
    ]

pub visit-Round :
    (input : GenerateSlotsInput) (loop next : Loop) (m : ℕ)
    → visit input loop m ≡ ok next
    → Round input loop m next
unfolding visit
visit-Round input loop next m h = elim (Bool-cases (half_hour_refused input.resource m)) [
  | inl r ↦ subst (Round input loop m) (ground arith) (refused r)
  | inr r ↦ elim (Bool-cases (contains loop.seen m)) [
    | inl s ↦ subst (Round input loop m) (ground arith) (repeated s)
    | inr s ↦
        let (start, e, k) =
          >>=-eq-ok (instant_from_day_minutes input.zone input.iso_date m) (visit_from input loop m)
            {b = next} (ground arith) in
        visit_from-Round input loop next m start e r s k
  ]
]
